-- ===== src/Deploy/Report.antt =====
-- What a deployment records of its servers: the merged target and output texts, and the overall
-- status.
use devops_cd.Prelude.{
  ℕ, ◌+◌, String, Bool, List, [], ◌∷◌, ltb, ◌==◌, length, count, str_eq, if◌then◌else◌,
}
use devops_cd.Text.{append, join}
use devops_cd.Text.Digits.{decimal}

-- One server's dict in `results`.
pub record ServerResult : Type 0 where
  pub server_id : ℕ
  pub host : String
  pub status : String
  pub output : String

concat_all : List String → String
concat_all [] = ""
concat_all (x ∷ xs) = append x (concat_all xs)

unfoldable pub label : ℕ → ℕ → ServerResult → String
unfolding concat_all
label i total r =
    concat_all (
      "[" ∷ decimal (i + 1) ∷ "/" ∷ decimal total ∷ "] #" ∷ decimal r.server_id ∷ " " ∷ r.host ∷ [])

target_parts : ℕ → ℕ → List ServerResult → List String
target_parts i total [] = []
target_parts i total (r ∷ rs) = label i total r ∷ target_parts (i + 1) total rs

abbrev first_target : List ServerResult → String
first_target [] = "(无)"
first_target (r ∷ rs) = append "#" (append (decimal r.server_id) (append " " r.host))

unfoldable pub build_target_str : List ServerResult → Bool → ℕ → String
unfolding target_parts
build_target_str results is_batch total =
    if is_batch then join ", " (target_parts 0 total results) else first_target results

output_parts : ℕ → ℕ → List ServerResult → List String
unfolding concat_all
output_parts i total [] = []
output_parts i total (r ∷ rs) =
    concat_all ("━━━ " ∷ label i total r ∷ " (" ∷ r.status ∷ ") ━━━" ∷ [])
    ∷ r.output
    ∷ output_parts (i + 1) total rs

abbrev first_output : List ServerResult → String
first_output [] = ""
first_output (r ∷ rs) = r.output

unfoldable pub build_output : List ServerResult → Bool → ℕ → String
unfolding output_parts
build_output results is_batch total =
    if is_batch then join "\n" (output_parts 0 total results) else first_output results

abbrev pub is_ok : ServerResult → Bool
is_ok r = str_eq r.status "ok"

-- Whether every server, no server or some of the servers succeeded.
unfoldable pub overall : List ServerResult → String
overall results =
    let oks = count is_ok results in
    if oks == length results then "ok" else if oks == 0 then "failed" else "partial"

abbrev pub all_ok : List ServerResult → Bool
all_ok results = count is_ok results == length results

-- The label of the notification and of the reply.
unfoldable pub status_label : List ServerResult → String
unfolding concat_all
status_label results =
    let oks = count is_ok results in
    if oks == length results
    then "✅ Success"
    else if ltb 0 oks
    then concat_all
        ("⚠\u{fe0f} Partial success " ∷ decimal oks ∷ "/" ∷ decimal (length results) ∷ [])
    else "❌ Failed"

abbrev pub route_label : String → String
route_label deploy_type = if str_eq deploy_type "compose" then "docker" else "ssh"

-- notify_targets
unfoldable pub notify_targets : String → List ServerResult → List String
unfolding concat_all
notify_targets deploy_type [] = []
notify_targets deploy_type (r ∷ rs) =
    concat_all (route_label deploy_type ∷ "[" ∷ r.host ∷ "]" ∷ []) ∷ notify_targets deploy_type rs
