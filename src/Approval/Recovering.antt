-- ===== src/Approval/Recovering.antt =====
-- What the recovery at start-up leaves.
use devops_cd.Prelude.{
  ℕ, Bool, false, ◌&&◌, List, [], ◌∷◌, ◌≡◌, refl, arith, ltb, any, any-update, update, inl, inr,
  Bool-cases,
}
use devops_cd.State.{
  ApprovalStatus, approved, deploying, LogStatus, Approval, DeployLog, State, same_status,
}
use devops_cd.DeployRun.Records.{release_row, running_of, is_interrupted, recover_stale_running}
use devops_cd.Approval.Env.{Env}
use devops_cd.Approval.Machine.{move_row}
use devops_cd.Approval.Execution.{
  recover_on_startup, reopen_interrupted, back_to_approved, converge, abandoned, is_log_ok,
  is_log_failed,
}

not_deploying : same_status approved deploying ≡ false
unfolding same_status
not_deploying = refl

-- An interrupted record of an approval.
abbrev pub left_over : DeployLog → Bool
left_over r = ltb 0 r.approval_id && is_interrupted r.status

running_reopened :
    (i : ℕ) (xs : List DeployLog)
    → any (running_of i) (update left_over (release_row LogStatus.pending) xs)
      ≡ any (running_of i) xs
running_reopened i [] = refl
running_reopened i (x ∷ xs) = elim (Bool-cases (left_over x)) [
  | inl hit ↦ rw (hit, running_reopened i xs) (ground arith)
  | inr miss ↦ rw (miss, running_reopened i xs) refl
]

abandoned_reopened :
    (s : State) (xs : List Approval)
    → any (abandoned (reopen_interrupted s)) xs ≡ any (abandoned s) xs
abandoned_reopened s [] = refl
abandoned_reopened s (x ∷ xs) = rw (running_reopened x.id s.logs, abandoned_reopened s xs) refl

none_abandoned :
    (c : Env) (s : State)
    → any (abandoned (back_to_approved c s)) (back_to_approved c s).approvals ≡ false
none_abandoned c s =
    any-update (abandoned s) (abandoned s) (move_row c.now approved (λ a. a)) s.approvals
      (λ a h. rw not_deploying refl) (λ a h. h)

none_left_over :
    (xs : List DeployLog)
    → any left_over (update left_over (release_row LogStatus.pending) xs) ≡ false
none_left_over xs =
    any-update left_over left_over (release_row LogStatus.pending) xs (λ r h. ground arith)
      (λ r h. h)

-- After the recovery at start-up every approval that is deploying has a running record, and no
-- record of an approval is left interrupted.
pub recovery_complete :
    (c : Env) (s : State)
    → (any (abandoned (recover_on_startup c s)) (recover_on_startup c s).approvals ≡ false)
      × (any left_over (recover_on_startup c s).logs ≡ false)
unfolding recover_on_startup
recovery_complete c s =
    let t =
      converge c is_log_failed ApprovalStatus.failed
        (converge c is_log_ok ApprovalStatus.deployed (recover_stale_running c.epoch 120 s).1) in
    (
      rw (abandoned_reopened (back_to_approved c t) (back_to_approved c t).approvals)
          (none_abandoned c t),
      none_left_over (back_to_approved c t).logs,
    )
