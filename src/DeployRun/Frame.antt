-- ===== src/DeployRun/Frame.antt =====
-- Operations on deployment records leave the approvals alone.
use devops_cd.Prelude.{ℕ, String, ◌≡◌, refl, arith}
use devops_cd.State.{LogStatus, State, Settings}
use devops_cd.DeployRun.Records.{
  NewRecord, start_deploy_record, claim_pending_deploy_record, Finish, finish_deploy_record,
  mark_deploy_cancelled, heartbeat, mark_approval_log_terminal, reset_pending_deploy_record,
}

-- The table of approvals is as it was.
abbrev pub Kept : State → State → Type 0
Kept t u = (u.approvals ≡ t.approvals) × (u.next_approval ≡ t.next_approval)

pub start-Kept :
    (n : String) (now : ℕ) (a : NewRecord) (s : State) → Kept s (start_deploy_record n now a s).1
unfolding start_deploy_record
start-Kept n now a s = (ground arith, ground arith)

pub claim_pending-Kept :
    (n : String) (now : ℕ) (p : String) (a : ℕ) (s : State)
    → Kept s (claim_pending_deploy_record n now p a s).1
unfolding claim_pending_deploy_record
claim_pending-Kept n now p a s = (ground arith, ground arith)

pub finish-Kept :
    (c : Settings) (d : ℕ) (f : Finish) (s : State) → Kept s (finish_deploy_record c d f s)
unfolding finish_deploy_record
finish-Kept c d f s = (refl, refl)

pub mark_cancelled-Kept : (d : ℕ) (s : State) → Kept s (mark_deploy_cancelled d s).1
unfolding mark_deploy_cancelled
mark_cancelled-Kept d s = (refl, refl)

pub heartbeat-Kept : (n : String) (now : ℕ) (s : State) → Kept s (heartbeat n now s)
unfolding heartbeat
heartbeat-Kept n now s = (refl, refl)

pub mark-Kept : (i : ℕ) (l : LogStatus) (s : State) → Kept s (mark_approval_log_terminal i l s)
unfolding mark_approval_log_terminal
mark-Kept i l s = (ground arith, ground arith)

pub reset-Kept : (i : ℕ) (s : State) → Kept s (reset_pending_deploy_record i s)
unfolding reset_pending_deploy_record
reset-Kept i s = (ground arith, ground arith)
