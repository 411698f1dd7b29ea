-- ===== src/System/Safety.antt =====
-- What holds after any sequence of steps: at most one running deployment of a project, and the
-- state machine of approvals.
use devops_cd.Prelude.{
  ℕ, ◌+◌, ◌≤◌, String, true, false, List, [], ◌∷◌, ◌≡◌, arith, All, All-map, count, count-le, some,
  find_first, ◌==◌, Bool-cases, inl, inr,
}
use mathlib.Core.Option.{some-injective}
use mathlib.Core.Path.{subst}
use devops_cd.State.{Approval, DeployLog, State}
use devops_cd.DeployRun.Records.{
  holds, start_deploy_record, claim_pending_deploy_record, finish_deploy_record,
  mark_deploy_cancelled, heartbeat,
}
use devops_cd.DeployRun.Locks.{IsLocked, IsValid, running_in}
use devops_cd.DeployRun.Keeps.{
  start_deploy_record-IsValid, claim_pending_deploy_record-IsValid, finish_deploy_record-IsValid,
  mark_deploy_cancelled-IsValid, heartbeat-IsValid,
}
use devops_cd.DeployRun.Frame.{
  start-Kept, claim_pending-Kept, finish-Kept, mark_cancelled-Kept, heartbeat-Kept,
}
use devops_cd.Approval.Machine.{get_by_id}
use devops_cd.Approval.Evolution.{
  Follows, Follows-IsReviewed, IsReviewed, Evolves, is_final, final_stays,
}
use devops_cd.Approval.Keys.{IsKeyed, Evolves-IsKeyed}
use devops_cd.Approval.Perms.{same_person}
use devops_cd.Approval.Locks.{
  approve-IsValid, reject-IsValid, cancel-IsValid, claim-IsValid, gate_deploy-IsValid,
  settle-IsValid, recover_on_startup-IsValid, handle-IsValid, fail_execution-IsValid,
}
use devops_cd.Approval.Moves.{
  Later, Later-refl, Later-same, Later-trans, approve-Later, reject-Later, cancel-Later,
}
use devops_cd.Approval.Runs.{
  gate_deploy-Later, claim_for_execution-Later, settle-Later, handle-Later, fail_execution-Later,
  recover_on_startup-Later,
}
use devops_cd.System.{Step, Reach}

Step-IsValid : {s t : State} → Step s t → IsValid s → IsValid t
Step-IsValid {s} (Step.submit c q) v = gate_deploy-IsValid c q s v
Step-IsValid {s} (Step.approve c i u) v = approve-IsValid c i u s v
Step-IsValid {s} (Step.reject c i u note) v = reject-IsValid c i u note s v
Step-IsValid {s} (Step.cancel c i u) v = cancel-IsValid c i u s v
Step-IsValid {s} (Step.claim c i u) v = claim-IsValid c i u s v
Step-IsValid {s} (Step.settle c i r st) v = settle-IsValid c i r st s v
Step-IsValid {s} (Step.handle c i e) v = handle-IsValid c i e s v
Step-IsValid {s} (Step.fail_execution c i) v = fail_execution-IsValid c i s v
Step-IsValid {s} (Step.recover c) v = recover_on_startup-IsValid c s v
Step-IsValid {s} (Step.start n now a) v = start_deploy_record-IsValid n now a s v
Step-IsValid {s} (Step.claim_record n now p a) v = claim_pending_deploy_record-IsValid n now p a s v
Step-IsValid {s} (Step.finish c d f e) v = finish_deploy_record-IsValid c d f s e v
Step-IsValid {s} (Step.cancel_deploy d) v = mark_deploy_cancelled-IsValid d s v
Step-IsValid {s} (Step.heartbeat n now) v = heartbeat-IsValid n now s v
Step-IsValid (Step.register k) v = record {
  locked = v.locked;
  exclusive = v.exclusive;
  fresh = v.fresh;
  unique = v.unique;
}
Step-IsValid (Step.unregister k) v = record {
  locked = v.locked;
  exclusive = v.exclusive;
  fresh = v.fresh;
  unique = v.unique;
}
Step-IsValid Step.cancel_all v = record {
  locked = v.locked;
  exclusive = v.exclusive;
  fresh = v.fresh;
  unique = v.unique;
}
Step-IsValid (Step.configure rules servers) v = record {
  locked = v.locked;
  exclusive = v.exclusive;
  fresh = v.fresh;
  unique = v.unique;
}
Step-IsValid (Step.notified n) v = record {
  locked = v.locked;
  exclusive = v.exclusive;
  fresh = v.fresh;
  unique = v.unique;
}

-- Whatever the steps, the lock invariant holds after them if it held before them.
pub Reach-IsValid : {s t : State} → Reach s t → IsValid s → IsValid t
Reach-IsValid Reach.here v = v
Reach-IsValid (Reach.next r st) v = Step-IsValid st (Reach-IsValid r v)

running-holds : (p : String) (r : DeployLog) → IsLocked r → running_in p r ≡ true → holds p r ≡ true
running-holds p r l h = ground arith

-- From a valid state, however requests, deployments and instances interleave, at no moment does a
-- project have more than one running deployment record.
pub at_most_one_running :
    (s t : State) (p : String) → IsValid s → Reach s t → count (running_in p) t.logs ≤ 1
at_most_one_running s t p v r =
    let w = Reach-IsValid r v in
    omega (
      arith,
      w.exclusive p,
      count-le (running_in p) (holds p) t.logs (
          All-map IsLocked (λ r. running_in p r ≡ true → holds p r ≡ true) t.logs (running-holds p)
            w.locked),
    )

Step-Later : {s t : State} → Step s t → IsKeyed s → Later s t
Step-Later {s} (Step.submit c q) k' = gate_deploy-Later c q s
Step-Later {s} (Step.approve c i u) k' = approve-Later c i u s k'
Step-Later {s} (Step.reject c i u note) k' = reject-Later c i u note s k'
Step-Later {s} (Step.cancel c i u) k' = cancel-Later c i u s
Step-Later {s} (Step.claim c i u) k' = claim_for_execution-Later c i u s
Step-Later {s} (Step.settle c i r st) k' = settle-Later c i r st s
Step-Later {s} (Step.handle c i e) k' = handle-Later c i e s
Step-Later {s} (Step.fail_execution c i) k' = fail_execution-Later c i s
Step-Later {s} (Step.recover c) k' = recover_on_startup-Later c s
Step-Later {s} (Step.start n now a) k' =
    Later-same s s (start_deploy_record n now a s).1 (start-Kept n now a s) (Later-refl s)
Step-Later {s} (Step.claim_record n now p a) k' =
    Later-same s s (claim_pending_deploy_record n now p a s).1 (claim_pending-Kept n now p a s)
      (Later-refl s)
Step-Later {s} (Step.finish c d f e) k' =
    Later-same s s (finish_deploy_record c d f s) (finish-Kept c d f s) (Later-refl s)
Step-Later {s} (Step.cancel_deploy d) k' =
    Later-same s s (mark_deploy_cancelled d s).1 (mark_cancelled-Kept d s) (Later-refl s)
Step-Later {s} (Step.heartbeat n now) k' =
    Later-same s s (heartbeat n now s) (heartbeat-Kept n now s) (Later-refl s)
Step-Later {s} (Step.register k) k' = Later-refl s
Step-Later {s} (Step.unregister k) k' = Later-refl s
Step-Later {s} Step.cancel_all k' = Later-refl s
Step-Later {s} (Step.configure rules servers) k' = Later-refl s
Step-Later {s} (Step.notified n) k' = Later-refl s

-- Whatever the steps, no approval goes away, what it is about stays, and its status moves along
-- the edges of the state machine.
pub Reach-Later : {s t : State} → Reach s t → IsKeyed s → Later s t
Reach-Later {s} Reach.here k = Later-refl s
Reach-Later {s} (Reach.next {t = t} {u = u} r st) k =
    let l = Reach-Later r k in Later-trans s t u l (Step-Later st (Evolves-IsKeyed s t l k))

Evolves-find :
    (i n m : ℕ) (xs ys : List Approval) (a : Approval)
    → Evolves n xs m ys
    → find_first (λ (x : Approval). x.id == i) xs ≡ some a
    → (b : Approval) × (find_first (λ (x : Approval). x.id == i) ys ≡ some b) × Follows a b
Evolves-find i n m [] ys a e h = cc
Evolves-find i n m (x ∷ xs) [] a e h = absurd e
Evolves-find i n m (x ∷ xs) (y ∷ ys) a e h = elim (Bool-cases (x.id == i)) [
  | inl hit ↦ (
    y,
    ground (arith, e.0.same_id),
    subst (λ z. Follows z y) (some-injective x a (rw hit at h)) e.0,
  )
  | inr miss ↦
      let (b, found, k) = Evolves-find i n m xs ys a e.1 (rw miss at h) in
      (b, ground (arith, e.0.same_id), k)
]

-- From any moment to any later one, an approval stays in the table under its id, with the same
-- project, requester and parameters, and its status moves along the edges of the state machine.
pub approval_history :
    (s t : State) (i : ℕ) (a : Approval)
    → IsKeyed s
    → Reach s t
    → get_by_id i s ≡ some a
    → (b : Approval) × (get_by_id i t ≡ some b) × Follows a b
unfolding get_by_id
approval_history s t i a k r h =
    Evolves-find i s.next_approval t.next_approval s.approvals t.approvals a (Reach-Later r k) h

-- An approval that is deployed, failed, rejected or cancelled keeps that status for ever.
pub final_for_ever :
    (s t : State) (i : ℕ) (a : Approval)
    → IsKeyed s
    → Reach s t
    → get_by_id i s ≡ some a
    → is_final a.status ≡ true
    → (b : Approval) × (get_by_id i t ≡ some b) × (b.status ≡ a.status)
final_for_ever s t i a k r h f =
    let (b, e, follows) = approval_history s t i a k r h in (b, e, final_stays follows.moves f)

All-new : (n m : ℕ) (ys : List Approval) → Evolves n [] m ys → All IsReviewed ys
All-new n m [] e = tt
All-new n m (y ∷ ys) e = (e.1.0, All-new (n + 1) m ys e.1.1)

All-IsReviewed :
    (n m : ℕ) (xs ys : List Approval) → Evolves n xs m ys → All IsReviewed xs → All IsReviewed ys
All-IsReviewed n m [] ys e h = All-new n m ys e
All-IsReviewed n m (x ∷ xs) [] e h = absurd e
All-IsReviewed n m (x ∷ xs) (y ∷ ys) e h =
    (Follows-IsReviewed x y e.0 h.0, All-IsReviewed n m xs ys e.1 h.1)

found-IsReviewed :
    (i : ℕ) (xs : List Approval) (b : Approval)
    → All IsReviewed xs
    → find_first (λ (x : Approval). x.id == i) xs ≡ some b
    → IsReviewed b
found-IsReviewed i [] b h e = cc
found-IsReviewed i (x ∷ xs) b h e = elim (Bool-cases (x.id == i)) [
  | inl hit ↦ subst IsReviewed (some-injective x b (rw hit at e)) h.0
  | inr miss ↦ found-IsReviewed i xs b h.1 (rw miss at e)
]

-- If no approval on record was approved by its own requester, then after any steps none is: the
-- approver and the requester of an approval, trimmed and where neither is empty, are two people.
pub four_eyes :
    (s t : State) (i : ℕ) (b : Approval)
    → IsKeyed s
    → All IsReviewed s.approvals
    → Reach s t
    → get_by_id i t ≡ some b
    → same_person b.requester b.approver ≡ false
unfolding get_by_id
four_eyes s t i b k h r e =
    found-IsReviewed i t.approvals b
      (All-IsReviewed s.next_approval t.next_approval s.approvals t.approvals (Reach-Later r k) h) e
