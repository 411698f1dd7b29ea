-- ===== src/Approval/Machine.antt =====
-- Reading an approval, creating one, and `_transition`, the conditional UPDATE by which every
-- status change is made.
use devops_cd.Prelude.{
  ℕ, ◌+◌, String, Bool, ◌&&◌, Option, none, some, List, [], ◌∷◌, ◌++◌, ltb, ◌==◌, find_first,
  update, count, any,
}
use devops_cd.Text.{join}
use devops_cd.Text.Order.{sorted}
use devops_cd.State.{ApprovalStatus, ParamsJson, Approval, State, same_status}

unfoldable pub get_by_id : ℕ → State → Option Approval
get_by_id i s = find_first (λ (a : Approval). a.id == i) s.approvals

-- The keyword arguments of `create_approval`.
pub record NewApproval : Type 0 where
  pub project : String
  pub tag : String
  pub image : String
  pub deploy_type : String
  pub envs : List String
  pub params_json : ParamsJson
  pub requester : String
  pub scheduled_at : String
  pub status : ApprovalStatus
  pub approver : String

abbrev pub new_approval : ℕ → NewApproval → Approval
new_approval id a = record {
  id = id;
  project = a.project;
  tag = a.tag;
  image = a.image;
  deploy_type = a.deploy_type;
  envs = join "," (sorted a.envs);
  params_json = a.params_json;
  status = a.status;
  requester = a.requester;
  approver = a.approver;
  scheduled_at = a.scheduled_at;
  approve_note = "";
  deploy_id = 0;
  approved_at = none;
  updated_at = none;
}

unfoldable pub create_approval : NewApproval → State → ℕ × State
create_approval a s = (
  s.next_approval,
  record s {
    approvals = s.approvals ++ new_approval s.next_approval a ∷ [];
    next_approval = s.next_approval + 1;
  },
)

-- WHERE id=? AND status IN (…)
abbrev pub eligible : ℕ → List ApprovalStatus → Approval → Bool
eligible i from a = a.id == i && any (same_status a.status) from

abbrev pub move_row : String → ApprovalStatus → (Approval → Approval) → Approval → Approval
move_row now to fields a = record (fields a) { status = to; updated_at = some now }

-- Whether a row was changed, and the state after the UPDATE. `fields` sets the further columns.
unfoldable pub transition :
    String → ℕ → List ApprovalStatus → ApprovalStatus → (Approval → Approval) → State → Bool × State
transition now i from to fields s = (
  ltb 0 (count (eligible i from) s.approvals),
  record s { approvals = update (eligible i from) (move_row now to fields) s.approvals },
)
