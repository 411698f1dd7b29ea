-- ===== src/Deploy/Targets.antt =====
-- `DeployService._get_targets`: the servers of a deployment, with their credentials decrypted.
use devops_cd.Prelude.{
  ℕ, String, Bool, false, ◌||◌, Option, some, List, [], ◌∷◌, ◌==◌, select, if◌then◌else◌,
}
use devops_cd.Text.{is_empty, contains}
use devops_cd.Text.Csv.{parse_server_ids}
use devops_cd.Text.Order.{le_text}
use devops_cd.Result.{Result, ok, err, app, and_then}
use devops_cd.State.{Server, State}

-- DeployTarget with the id of its server; `execute` sets path, mode and options.
pub record Target : Type 0 where
  pub id : ℕ
  pub host : String
  pub port : ℕ
  pub user : String
  pub password : String
  pub ssh_key : String

-- `decrypt_strict` of backend/crypto.py: `none` where it raises DecryptError
abbrev pub Decrypt : Type 0
Decrypt = String → Option String

abbrev pub has_number : List ℕ → ℕ → Bool
has_number [] n = false
has_number (m ∷ ms) n = m == n || has_number ms n

-- type IN ('ssh','docker')
abbrev pub is_ssh_route : Server → Bool
is_ssh_route r = contains r.kind ("ssh" ∷ "docker" ∷ [])

insert_by_name : Server → List Server → List Server
insert_by_name r [] = r ∷ []
insert_by_name r (x ∷ xs) =
    let rest = insert_by_name r xs in if le_text r.name x.name then r ∷ x ∷ xs else x ∷ rest

-- ORDER BY name
unfoldable pub by_name : List Server → List Server
unfolding insert_by_name
by_name [] = []
by_name (r ∷ rs) = insert_by_name r (by_name rs)

abbrev pub selected : List ℕ → State → List Server
selected [] s = []
selected (i ∷ is) s = select (λ (r : Server). has_number (i ∷ is) r.id) s.servers

abbrev pub rows_for : String → State → List Server
rows_for server_ids s =
    if is_empty server_ids
    then by_name (select is_ssh_route s.servers)
    else selected (parse_server_ids server_ids) s

abbrev pub target_with : Server → Option String → Option String → Result Target
target_with r (some password) (some ssh_key) = ok (record {
  id = r.id;
  host = r.host;
  port = r.port;
  user = r.user;
  password = password;
  ssh_key = ssh_key;
})
target_with r _ _ = err (app 500 "")

abbrev pub build_target : Decrypt → Server → Result Target
build_target decrypt r = target_with r (decrypt r.password) (decrypt r.ssh_key)

abbrev pub build_targets : Decrypt → List Server → Result (List Target)
build_targets decrypt [] = ok []
build_targets decrypt (r ∷ rs) =
    let rest = build_targets decrypt rs in
    and_then (build_target decrypt r) λ t. and_then rest λ ts. ok (t ∷ ts)

unfoldable pub get_targets : Decrypt → String → State → Result (List Target)
get_targets decrypt server_ids s = build_targets decrypt (rows_for server_ids s)
