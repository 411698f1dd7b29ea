-- ===== src/Approval/Rules.antt =====
-- Rule evaluation: `match_rule`, `get_rule`, `resolve_target_envs`, `approval_required`.
use devops_cd.Prelude.{
  ℕ, String, Bool, false, not, ◌&&◌, ◌||◌, Option, none, some, List, [], ◌∷◌, ◌==◌, select, any,
  if◌then◌else◌,
}
use devops_cd.Text.{is_empty, strip, contains}
use devops_cd.Text.Csv.{parse_csv, parse_server_ids}
use devops_cd.Result.{Result, ok, err, validation, and_then}
use devops_cd.State.{Rule, Server, State}

-- `if x is None: x = rule`
abbrev pub or_set : Option Rule → Rule → Option Rule
or_set none r = some r
or_set (some q) r = some q

-- exact or fallback
abbrev pub prefer : Option Rule → Option Rule → Option Rule
prefer (some q) fallback = some q
prefer none fallback = fallback

-- The loop of `match_rule`, with its two variables. A rule without targets is in neither test.
unfoldable pub match_from : String → Option Rule → Option Rule → List Rule → Option Rule
match_from project exact fallback [] = prefer exact fallback
match_from project exact fallback (rule ∷ rules) =
    let targets = parse_csv rule.project in
    let hit = contains project targets in
    match_from project (if hit then or_set exact rule else exact)
      (if not hit && contains "*" targets then or_set fallback rule else fallback) rules

unfoldable pub match_rule : List Rule → String → Option Rule
unfolding match_from
match_rule rules project = match_from project none none rules

unfoldable pub get_rule : String → State → Option Rule
get_rule project s = match_rule s.rules project

-- envs.update(_parse_csv(tags)) for each row
abbrev add_all : List String → List String → List String
add_all [] envs = envs
add_all (x ∷ xs) envs = let rest = add_all xs envs in if contains x rest then rest else x ∷ rest

unfoldable pub tags_of : List Server → List String
tags_of [] = []
tags_of (r ∷ rs) = add_all (parse_csv r.tags) (tags_of rs)

abbrev has_number : List ℕ → ℕ → Bool
has_number [] n = false
has_number (m ∷ ms) n = m == n || has_number ms n

abbrev envs_of_ids : List ℕ → State → Result (List String)
envs_of_ids [] s = err (validation "errors.deploy_validation")
envs_of_ids (i ∷ is) s = ok (tags_of (select (λ (r : Server). has_number (i ∷ is) r.id) s.servers))

-- A set of environments is a list without repetitions.
unfoldable pub resolve_target_envs : String → State → Result (List String)
resolve_target_envs server_ids s =
    if is_empty (strip server_ids)
    then ok (tags_of s.servers)
    else envs_of_ids (parse_server_ids (strip server_ids)) s

-- require_envs & envs
abbrev pub meets : List String → List String → Bool
meets required envs = any (λ x. contains x envs) required

abbrev required_envs : List String → String → Rule → State → Result (Option Rule)
required_envs [] server_ids rule s = ok (some rule)
required_envs (x ∷ xs) server_ids rule s =
    and_then (resolve_target_envs server_ids s)
      λ envs. ok (if meets (x ∷ xs) envs then some rule else none)

abbrev required_for : Bool → String → Rule → State → Result (Option Rule)
required_for for_rollback server_ids rule s =
    if not rule.enabled
    then ok none
    else if for_rollback && not rule.require_rollback_approval
    then ok none
    else required_envs (parse_csv rule.require_envs) server_ids rule s

abbrev required_by : Bool → String → Option Rule → State → Result (Option Rule)
required_by for_rollback server_ids none s = ok none
required_by for_rollback server_ids (some rule) s = required_for for_rollback server_ids rule s

-- The rule that asks for an approval, if one does.
unfoldable pub approval_required : String → String → Bool → State → Result (Option Rule)
approval_required project server_ids for_rollback s =
    required_by for_rollback server_ids (get_rule project s) s
