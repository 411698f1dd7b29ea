-- ===== src/DeployRun/Locks.antt =====
-- The lock of a project: what every operation on deployment records keeps true.
use devops_cd.Prelude.{
  ℕ, ◌+◌, ◌≤◌, ◌<◌, String, Bool, true, false, ◌&&◌, str_eq, none, some, List, ◌≡◌, arith, ◌==◌,
  All, count, update, if◌then◌else◌, count-update-le, count-false, All-update,
}
use devops_cd.State.{DeployLog, State}
use devops_cd.DeployRun.Records.{is_running, holds}

-- Exactly the running rows hold a lock, each that of its own project.
abbrev pub IsLocked : DeployLog → Type 0
IsLocked r = r.lock_key ≡ (if is_running r.status then some r.project else none)

abbrev pub has_id : ℕ → DeployLog → Bool
has_id i r = r.id == i

-- A running record of the project.
abbrev pub running_in : String → DeployLog → Bool
running_in p r = str_eq r.project p && is_running r.status

pub record IsValid (s : State) : Type 0 where
  pub locked : All IsLocked s.logs
  -- the unique index on lock_key
  pub exclusive : (p : String) → count (holds p) s.logs ≤ 1
  -- the primary key, and the auto-increment counter
  pub fresh : All (λ (r : DeployLog). r.id < s.next_log) s.logs
  pub unique : (i : ℕ) → count (has_id i) s.logs ≤ 1

-- An UPDATE that gives no row a new lock and no row a new id.
module _ (hit : DeployLog → Bool) (f : DeployLog → DeployLog)
    (locks : (r : DeployLog) → IsLocked r → hit r ≡ true → IsLocked (f r))
    (grants : (p : String) (r : DeployLog) → hit r ≡ true → holds p (f r) ≡ true → holds p r ≡ true)
    (keeps : (r : DeployLog) → (f r).id ≡ r.id) where
  exclusive-update :
      (p : String) (xs : List DeployLog)
      → count (holds p) (update hit f xs) ≤ count (holds p) xs + count (λ _. false) xs
  exclusive-update p xs =
      count-update-le (holds p) (holds p) (λ _. false) hit f xs λ r. ground (arith, grants p r)

  unique-update :
      (i : ℕ) (xs : List DeployLog)
      → count (has_id i) (update hit f xs) ≤ count (has_id i) xs + count (λ _. false) xs
  unique-update i xs =
      count-update-le (has_id i) (has_id i) (λ _. false) hit f xs λ r. ground (arith, keeps r)

  pub update-IsValid : (s : State) → IsValid s → IsValid (record s { logs = update hit f s.logs })
  update-IsValid s v = record {
    locked = All-update IsLocked IsLocked hit f s.logs locks (λ r h _. h) v.locked;
    exclusive = λ p. omega (arith, v.exclusive p, exclusive-update p s.logs, count-false s.logs);
    fresh =
        All-update (λ r. r.id < s.next_log) (λ r. r.id < s.next_log) hit f s.logs
          (λ r h _. omega (arith, keeps r)) (λ r h _. h) v.fresh;
    unique = λ i. omega (arith, v.unique i, unique-update i s.logs, count-false s.logs);
  }
