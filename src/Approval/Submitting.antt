-- ===== src/Approval/Submitting.antt =====
-- What a submitted deployment becomes: it runs at once, it is refused, or it waits under a new
-- approval with a pending record.
use devops_cd.Prelude.{
  ℕ, ◌<◌, String, Bool, true, Option, none, some, List, [], ◌∷◌, ◌++◌, ◌≡◌, refl, arith, All,
  find_first, find_last,
}
use devops_cd.Result.{Result, ok, err}
use devops_cd.State.{ApprovalStatus, snapshot, LogStatus, Approval, DeployLog, Rule, Notice, State}
use devops_cd.DeployRun.Records.{create_pending_deploy_record, pending_of, new_row}
use devops_cd.Approval.Env.{Env}
use devops_cd.Approval.Rules.{approval_required, resolve_target_envs}
use devops_cd.Approval.Schedule.{parse_scheduled_at}
use devops_cd.Approval.Machine.{get_by_id, create_approval, new_approval}
use devops_cd.Approval.Actions.{notify}
use devops_cd.Approval.Gate.{
  Request, Ticket, gate_deploy, gate_scheduled, gate_rule, gate_envs, gate_create, approval_of,
  record_of, status_for,
}
use devops_cd.Approval.Keys.{IsKeyed, has_key}

-- The approval and the record behind a ticket.
pub record IsWaiting (q : Request) (status : ApprovalStatus) (sched : String) (ticket : Ticket)
    (t : State) : Type 0 where
  pub row : Approval
  pub found : get_by_id ticket.approval_id t ≡ some row
  pub same_project : row.project ≡ q.project
  pub same_tag : row.tag ≡ q.tag
  pub same_requester : row.requester ≡ q.requester
  pub same_params : row.params_json ≡ snapshot q.params
  pub same_time : row.scheduled_at ≡ sched
  pub waits : row.status ≡ status
  pub log : DeployLog
  pub recorded : find_last (pending_of ticket.approval_id) t.logs ≡ some log
  pub unlocked : log.lock_key ≡ none
  pub log_project : log.project ≡ q.project

find_fresh :
    (i : ℕ) (xs : List Approval) (a : Approval)
    → All (λ (x : Approval). x.id < i) xs
    → a.id ≡ i
    → find_first (has_key i) (xs ++ a ∷ []) ≡ some a
find_fresh i [] a h e = ground arith
find_fresh i (x ∷ xs) a h e = ground (arith, h.0, find_fresh i xs a h.1 e)

find_newest :
    (p : DeployLog → Bool) (xs : List DeployLog) (r : DeployLog)
    → p r ≡ true
    → find_last p (xs ++ r ∷ []) ≡ some r
find_newest p [] r h = rw h refl
find_newest p (x ∷ xs) r h = rw (find_newest p xs r h) refl

notify-approvals :
    (rule : Rule) (n : ℕ → Notice) (i : ℕ) (s : State)
    → get_by_id i (notify rule n s) ≡ get_by_id i s
unfolding get_by_id
notify-approvals rule n i s = ground arith

notify-logs : (rule : Rule) (n : ℕ → Notice) (s : State) → (notify rule n s).logs ≡ s.logs
notify-logs rule n s = ground arith

-- The state with the new approval and its record, before a notice is sent.
abbrev with_ticket : Env → Request → String → Option Rule → List String → State → State
with_ticket c q sched rule envs s =
    let (i, t) = create_approval (approval_of c q sched rule envs) s in
    (create_pending_deploy_record (record_of c q i) t).1

module _ (c : Env) (q : Request) (sched : String) (envs : List String) (s : State)
    (k : IsKeyed s) where
  created :
      (rule : Option Rule)
      → get_by_id s.next_approval (with_ticket c q sched rule envs s)
        ≡ some (new_approval s.next_approval (approval_of c q sched rule envs))
  unfolding get_by_id create_approval create_pending_deploy_record
  created rule = find_fresh s.next_approval s.approvals _ k.fresh refl

  logged :
      (rule : Option Rule)
      → find_last (pending_of s.next_approval) (with_ticket c q sched rule envs s).logs
        ≡ some (new_row s.next_log LogStatus.pending none "" none (record_of c q s.next_approval))
  unfolding create_approval create_pending_deploy_record
  logged rule = find_newest (pending_of s.next_approval) s.logs _ (ground arith)

  gate_create-IsWaiting :
      (rule : Option Rule)
      → IsWaiting q
          (status_for rule)
          sched
          (gate_create c q sched rule envs s).0
          (gate_create c q sched rule envs s).1
  unfolding create_approval
  gate_create-IsWaiting none = record {
    row = new_approval s.next_approval (approval_of c q sched none envs);
    found = created none;
    same_project = refl;
    same_tag = refl;
    same_requester = refl;
    same_params = refl;
    same_time = refl;
    waits = refl;
    log = new_row s.next_log LogStatus.pending none "" none (record_of c q s.next_approval);
    recorded = logged none;
    unlocked = refl;
    log_project = refl;
  }
  gate_create-IsWaiting (some rule) = record {
    row = new_approval s.next_approval (approval_of c q sched (some rule) envs);
    found = rw notify-approvals (created (some rule));
    same_project = refl;
    same_tag = refl;
    same_requester = refl;
    same_params = refl;
    same_time = refl;
    waits = refl;
    log = new_row s.next_log LogStatus.pending none "" none (record_of c q s.next_approval);
    recorded = rw notify-logs (logged (some rule));
    unlocked = refl;
    log_project = refl;
  }

-- What the answer and the state after a submission are, by the time that was asked for and the rule
-- that applies.
abbrev pub Gated :
    Request → Result String → Result (Option Rule) → State → Result (Option Ticket) × State → Type 0
Gated q sched rule s (err e, t) = t ≡ s
Gated q sched rule s (ok none, t) = (t ≡ s) × (sched ≡ ok "") × (rule ≡ ok none)
Gated q sched rule s (ok (some ticket), t) =
    (at : String) × (matched : Option Rule) × (sched ≡ ok at)
    × (rule ≡ ok matched)
    × IsWaiting q (status_for matched) at ticket t

gate_envs-Gated :
    (c : Env) (q : Request) (sched : String) (rule : Option Rule) (r : Result (List String))
    (s : State)
    → IsKeyed s
    → Gated q (ok sched) (ok rule) s (gate_envs c q sched rule r s)
gate_envs-Gated c q sched rule (err e) s k = refl
gate_envs-Gated c q sched rule (ok envs) s k =
    (sched, rule, refl, refl, gate_create-IsWaiting c q sched envs s k rule)

gate_rule-Gated :
    (c : Env) (q : Request) (sched : String) (r : Result (Option Rule)) (s : State)
    → IsKeyed s
    → Gated q (ok sched) r s (gate_rule c q sched r s)
gate_rule-Gated c q sched (err e) s k = refl
gate_rule-Gated c q String.[] (ok none) s k = (refl, refl, refl)
gate_rule-Gated c q (String.◌∷◌ d sched) (ok none) s k =
    gate_envs-Gated c q (String.◌∷◌ d sched) none (resolve_target_envs q.server_ids s) s k
gate_rule-Gated c q sched (ok (some rule)) s k =
    gate_envs-Gated c q sched (some rule) (resolve_target_envs q.server_ids s) s k

gate_scheduled-Gated :
    (c : Env) (q : Request) (r : Result String) (s : State)
    → IsKeyed s
    → Gated q r
        (approval_required q.project q.server_ids q.for_rollback s)
        s
        (gate_scheduled c q r s)
gate_scheduled-Gated c q (err e) s k = refl
gate_scheduled-Gated c q (ok sched) s k =
    gate_rule-Gated c q sched (approval_required q.project q.server_ids q.for_rollback s) s k

-- A submission that is refused changes nothing. One that may run at once changes nothing either,
-- and then no time was asked for and no rule needs an approval. Every other submission has a new
-- approval with its project, tag, requester, parameters and time, which is pending where a rule
-- needs it and approved where it only waits for its time, and a pending record without a lock.
pub gate_deploy-Gated :
    (c : Env) (q : Request) (s : State)
    → IsKeyed s
    → Gated q
        (parse_scheduled_at q.scheduled_at)
        (approval_required q.project q.server_ids q.for_rollback s)
        s
        (gate_deploy c q s)
unfolding gate_deploy
gate_deploy-Gated c q s k = gate_scheduled-Gated c q (parse_scheduled_at q.scheduled_at) s k
