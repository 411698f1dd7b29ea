-- ===== src/Rollback/Source.antt =====
-- Which record a rollback replays.
use devops_cd.Prelude.{
  ℕ, ◌<◌, String, true, false, Option, none, some, List, [], ◌∷◌, ◌++◌, ◌≡◌, ◌≢◌, refl, ap, arith,
  All, find_last, or_else, if◌then◌else◌, str_eq, ltb→lt, lt→ltb, inl, inr, Bool-cases,
}
use devops_cd.State.{LogStatus, ParamsJson, blank, snapshot, corrupt, DeployLog, State}
use devops_cd.Approval.Execution.{is_log_ok}
use devops_cd.Rollback.{reference, earlier_than, find_rollback_source, is_earlier, has_snapshot}

-- A record that a rollback may replay in place of `ref`.
pub record IsSource (project : String) (ref r : DeployLog) : Type 0 where
  pub of_project : str_eq r.project project ≡ true
  pub succeeded : r.status ≡ LogStatus.ok
  pub recorded : r.params_json ≢ blank
  pub same_type : str_eq r.deploy_type ref.deploy_type ≡ true
  pub other_tag : str_eq r.tag ref.tag ≡ false
  pub older : r.id < ref.id

status-ok : (st : LogStatus) → is_log_ok st ≡ true → st ≡ LogStatus.ok
status-ok LogStatus.ok h = refl
status-ok LogStatus.pending h = cc
status-ok LogStatus.running h = cc
status-ok LogStatus.failed h = cc
status-ok LogStatus.partial h = cc
status-ok LogStatus.terminated h = cc
status-ok LogStatus.interrupted h = cc
status-ok LogStatus.rejected h = cc
status-ok LogStatus.cancelled h = cc
status-ok (LogStatus.other t) h = cc

snapshot-there : (p : ParamsJson) → has_snapshot p ≡ true → p ≢ blank
snapshot-there blank h e = cc
snapshot-there (snapshot p) h e = cc
snapshot-there corrupt h e = cc

there-snapshot : (p : ParamsJson) → p ≢ blank → has_snapshot p ≡ true
there-snapshot blank h = absurd (h refl)
there-snapshot (snapshot p) h = refl
there-snapshot corrupt h = refl

earlier-IsSource :
    (project : String) (ref r : DeployLog)
    → is_earlier project ref r ≡ true
    → IsSource project ref r
earlier-IsSource project ref r h = record {
  of_project = ground arith;
  succeeded = status-ok r.status (ground arith);
  recorded = snapshot-there r.params_json (ground arith);
  same_type = ground arith;
  other_tag = ground arith;
  older = ltb→lt r.id ref.id (ground arith);
}

IsSource-earlier :
    (project : String) (ref r : DeployLog)
    → IsSource project ref r
    → is_earlier project ref r ≡ true
IsSource-earlier project ref r h =
    rw
      (
        h.of_project,
        h.succeeded,
        there-snapshot r.params_json h.recorded,
        h.same_type,
        h.other_tag,
        lt→ltb r.id ref.id h.older,
      )
      refl

-- No record can be replayed, or the latest one that can: no later row of the table can be.
abbrev pub Latest : String → DeployLog → List DeployLog → Option DeployLog → Type 0
Latest project ref logs none = All (λ x. ¬ IsSource project ref x) logs
Latest project ref logs (some r) =
    IsSource project ref r
    × (before : List DeployLog) × (after : List DeployLog) × (logs ≡ before ++ r ∷ after)
    × All (λ x. ¬ IsSource project ref x) after

not-IsSource :
    (project : String) (ref x : DeployLog)
    → is_earlier project ref x ≡ false
    → ¬ IsSource project ref x
not-IsSource project ref x miss h = let k = IsSource-earlier project ref x h in absurd cc

Latest-step :
    (project : String) (ref x : DeployLog) (logs : List DeployLog) (o : Option DeployLog)
    → Latest project ref logs o
    → Latest project ref (x ∷ logs) (or_else o (if is_earlier project ref x then some x else none))
Latest-step project ref x logs (some r) (source, before, after, e, rest) =
    (source, x ∷ before, after, ap (λ z. x ∷ z) e, rest)
Latest-step project ref x logs none h = elim (Bool-cases (is_earlier project ref x)) [
  | inl hit ↦ rw hit (earlier-IsSource project ref x hit, [], logs, refl, h)
  | inr miss ↦ rw miss ((not-IsSource project ref x miss, h))
]

find_last-Latest :
    (project : String) (ref : DeployLog) (logs : List DeployLog)
    → Latest project ref logs (find_last (is_earlier project ref) logs)
find_last-Latest project ref [] = tt
find_last-Latest project ref (x ∷ logs) =
    Latest-step project ref x logs (find_last (is_earlier project ref) logs)
      (find_last-Latest project ref logs)

-- What is replayed in place of the reference.
abbrev pub Replays : String → Option DeployLog → List DeployLog → Option DeployLog → Type 0
Replays project none logs o = o ≡ none
Replays project (some ref) logs o = Latest project ref logs o

earlier_than-Replays :
    (project : String) (o : Option DeployLog) (s : State)
    → Replays project o s.logs (earlier_than project o s)
earlier_than-Replays project none s = refl
earlier_than-Replays project (some ref) s = find_last-Latest project ref s.logs

-- The record that is found for a replay is the latest in the table that is a success of the project
-- with the reference's type, a snapshot, another tag and an older id; where none is found, there is
-- no reference or no such record.
pub rollback_source :
    (project : String) (before : ℕ) (deploy_type : String) (s : State)
    → Replays project
        (reference project before deploy_type s)
        s.logs
        (find_rollback_source project before deploy_type s)
unfolding find_rollback_source
rollback_source project before deploy_type s =
    earlier_than-Replays project (reference project before deploy_type s) s
