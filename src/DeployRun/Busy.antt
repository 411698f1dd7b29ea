-- ===== src/DeployRun/Busy.antt =====
-- When a deployment record cannot be opened.
use devops_cd.Prelude.{
  ℕ, String, Bool, true, false, not, ◌||◌, Option, none, some, List, [], ◌∷◌, ◌≡◌, refl, arith, All,
  any, find_last, or_else, if◌then◌else◌,
}
use devops_cd.Result.{Result, ok, err}
use devops_cd.State.{DeployLog, State}
use devops_cd.DeployRun.Records.{NewRecord, start_deploy_record, holds, find_running_deploy}
use devops_cd.DeployRun.Locks.{IsLocked, IsValid, running_in}

holds-running : (p : String) (r : DeployLog) → IsLocked r → holds p r ≡ running_in p r
holds-running p r l = ground arith

any-holds :
    (p : String) (xs : List DeployLog) → All IsLocked xs → any (holds p) xs ≡ any (running_in p) xs
any-holds p [] h = refl
any-holds p (x ∷ xs) h = ground (arith, holds-running p x h.0, any-holds p xs h.1)

-- The answer of the query for a running record.
abbrev pub is_some {ℓ} : {A : Type ℓ} → Option A → Bool
is_some none = false
is_some (some a) = true

some-or_else :
    (o : Option DeployLog) (b : Bool) (r : DeployLog)
    → is_some (or_else o (if b then some r else none)) ≡ (is_some o || b)
some-or_else none true r = refl
some-or_else none false r = refl
some-or_else (some x) b r = refl

any_find : (p : DeployLog → Bool) (xs : List DeployLog) → is_some (find_last p xs) ≡ any p xs
any_find p [] = refl
any_find p (x ∷ xs) = ground (arith, some-or_else (find_last p xs) (p x) x, any_find p xs)

abbrev pub is_opened : Result ℕ → Bool
is_opened (ok d) = true
is_opened (err e) = false

-- In a valid state, the unique index lets a new record start exactly where the query for a running
-- deployment of the project finds none, and a start that it refuses changes nothing.
pub start_exclusion :
    (n : String) (now : ℕ) (a : NewRecord) (s : State)
    → IsValid s
    → (is_opened (start_deploy_record n now a s).0
        ≡ not (is_some (find_running_deploy a.project s)))
      × ((start_deploy_record n now a s).1 ≡ (
          if is_some (find_running_deploy a.project s)
          then s
          else (start_deploy_record n now a s).1))
unfolding start_deploy_record find_running_deploy
start_exclusion n now a s v =
    let e = any_find (running_in a.project) s.logs in
    let h = any-holds a.project s.logs v.locked in
    (rw (e, h) (ground arith), rw (e, h) (ground arith))
