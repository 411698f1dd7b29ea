-- ===== src/DeployRun/Keeps.antt =====
-- Every operation on deployment records keeps the lock invariant.
use devops_cd.Prelude.{
  ℕ, ◌+◌, ◌≤◌, ◌<◌, String, Bool, true, false, not, ◌&&◌, Option, none, some, List, [], ◌∷◌, ◌++◌,
  ◌≡◌, refl, inl, inr, arith, ◌==◌, ltb, count-false, str_eq, eq_iff, All, any, count, update,
  count-update-le, count-append, count-eq-zero, All-update, All-append, All-map, Bool-cases,
}
use devops_cd.State.{LogStatus, DeployLog, State, Settings}
use devops_cd.DeployRun.Status.{normalize_deploy_status}
use devops_cd.DeployRun.Records.{
  is_running, holds, NewRecord, insert_row, start_deploy_record, create_pending_deploy_record,
  claim_pending_deploy_record, reset_pending_deploy_record, mark_approval_log_terminal, Finish,
  finish_deploy_record, mark_deploy_cancelled, recover_stale_running, heartbeat, is_pending,
  release_row, claim_row, claim_found,
}
use devops_cd.DeployRun.Locks.{IsLocked, has_id, IsValid, update-IsValid}

fresh-count :
    (n : ℕ) (xs : List DeployLog) → All (λ (r : DeployLog). r.id < n) xs → count (has_id n) xs ≡ 0
fresh-count n [] h = refl
fresh-count n (x ∷ xs) h = ground (arith, fresh-count n xs h.1)

-- An INSERT of a row with the next id, whose lock, if it has one, no row holds.
module _ (r : DeployLog) (s : State) (v : IsValid s) (next : r.id ≡ s.next_log) (lock : IsLocked r)
    (free : (p : String) → holds p r ≡ true → count (holds p) s.logs ≡ 0) where
  insert-exclusive : (p : String) → count (holds p) (s.logs ++ r ∷ []) ≤ 1
  insert-exclusive p = rw count-append (ground (arith, free p, v.exclusive p))

  insert_unique : (i : ℕ) → count (has_id i) (s.logs ++ r ∷ []) ≤ 1
  insert_unique i =
      rw count-append (ground (arith, v.unique i, fresh-count s.next_log s.logs v.fresh))

  insert-IsValid : IsValid (insert_row r s)
  insert-IsValid = record {
    locked = All-append IsLocked s.logs (r ∷ []) v.locked (lock, tt);
    exclusive = insert-exclusive;
    fresh =
        All-append (λ r. r.id < s.next_log + 1) s.logs (r ∷ [])
          (All-map (λ r. r.id < s.next_log) (λ r. r.id < s.next_log + 1) s.logs (λ x h. omega arith)
            v.fresh)
          (omega arith, tt);
    unique = insert_unique;
  }

pub create_pending_deploy_record-IsValid :
    (a : NewRecord) (s : State) → IsValid s → IsValid (create_pending_deploy_record a s).1
unfolding create_pending_deploy_record
create_pending_deploy_record-IsValid a s v = insert-IsValid _ s v refl refl λ p h. cc

free_key :
    (p q : String) (xs : List DeployLog)
    → any (holds p) xs ≡ false
    → str_eq p q ≡ true
    → count (holds q) xs ≡ 0
free_key p q xs free same = rw (← (eq_iff p q).0 same) (count-eq-zero (holds p) xs free)

pub start_deploy_record-IsValid :
    (instance_id : String) (now : ℕ) (a : NewRecord) (s : State)
    → IsValid s
    → IsValid (start_deploy_record instance_id now a s).1
unfolding start_deploy_record
start_deploy_record-IsValid instance_id now a s v =
    elim (Bool-cases (any (holds a.project) s.logs)) [
      | inl busy ↦ rw busy v
      | inr free ↦
          rw free (insert-IsValid _ s v refl refl λ p h. free_key a.project p s.logs free h)
    ]

pub reset_pending_deploy_record-IsValid :
    (a : ℕ) (s : State) → IsValid s → IsValid (reset_pending_deploy_record a s)
unfolding reset_pending_deploy_record
reset_pending_deploy_record-IsValid a s v = elim (Bool-cases (a == 0)) [
  | inl none_given ↦ rw none_given v
  | inr given ↦ rw given (update-IsValid _ _ (λ r h _. refl) (λ p r _ h. cc) (λ r. refl) s v)
]

pub mark_approval_log_terminal-IsValid :
    (a : ℕ) (status : LogStatus) (s : State)
    → IsValid s
    → IsValid (mark_approval_log_terminal a status s)
unfolding mark_approval_log_terminal
mark_approval_log_terminal-IsValid a LogStatus.rejected s v = elim (Bool-cases (a == 0)) [
  | inl none_given ↦ rw none_given v
  | inr given ↦ rw given (update-IsValid _ _ (λ r h _. refl) (λ p r _ h. cc) (λ r. refl) s v)
]
mark_approval_log_terminal-IsValid a LogStatus.cancelled s v = elim (Bool-cases (a == 0)) [
  | inl none_given ↦ rw none_given v
  | inr given ↦ rw given (update-IsValid _ _ (λ r h _. refl) (λ p r _ h. cc) (λ r. refl) s v)
]
mark_approval_log_terminal-IsValid a _ s v = elim (Bool-cases (a == 0)) [
  | inl none_given ↦ rw none_given v
  | inr given ↦ rw given v
]

-- The new status must not be `running`; the service passes ok, failed, partial or terminated.
pub finish_deploy_record-IsValid :
    (c : Settings) (deploy_id : ℕ) (f : Finish) (s : State)
    → is_running (normalize_deploy_status f.status) ≡ false
    → IsValid s
    → IsValid (finish_deploy_record c deploy_id f s)
unfolding finish_deploy_record
finish_deploy_record-IsValid c deploy_id f s e v =
    update-IsValid _ _ (λ r h _. rw e) (λ p r _ h. cc) (λ r. refl) s v

pub mark_deploy_cancelled-IsValid :
    (deploy_id : ℕ) (s : State) → IsValid s → IsValid (mark_deploy_cancelled deploy_id s).1
unfolding mark_deploy_cancelled
mark_deploy_cancelled-IsValid deploy_id s v =
    let w =
      update-IsValid (λ r. r.id == deploy_id && is_running r.status)
        (release_row LogStatus.terminated) (λ r h _. refl) (λ p r _ h. cc) (λ r. refl) s v in
    record { locked = w.locked; exclusive = w.exclusive; fresh = w.fresh; unique = w.unique }

pub recover_stale_running-IsValid :
    (now stale : ℕ) (s : State) → IsValid s → IsValid (recover_stale_running now stale s).1
unfolding recover_stale_running
recover_stale_running-IsValid now stale s v =
    update-IsValid _ _ (λ r h _. refl) (λ p r _ h. cc) (λ r. refl) s v

pub heartbeat-IsValid :
    (instance_id : String) (now : ℕ) (s : State) → IsValid s → IsValid (heartbeat instance_id now s)
unfolding heartbeat
heartbeat-IsValid instance_id now s v =
    update-IsValid _ _ (λ r h _. h) (λ p r _ h. h) (λ r. refl) s v

abbrev hit : ℕ → DeployLog → Bool
hit i r = r.id == i && is_pending r.status

-- The UPDATE of a claim gives one row the lock that no other row holds.
module _ (instance_id : String) (now : ℕ) (p : String) (i : ℕ) (s : State) (v : IsValid s)
    (free : any (λ r. holds p r && not (has_id i r)) s.logs ≡ false) where
  claim_others :
      (k : String) (xs : List DeployLog)
      → str_eq p k ≡ false
      → count (holds k) (update (hit i) (claim_row instance_id now p) xs)
        ≤ count (holds k) xs + count (λ _. false) xs
  claim_others k xs ne =
      count-update-le (holds k) (holds k) (λ _. false) (hit i) (claim_row instance_id now p) xs
        λ r. ground arith

  claim_own :
      (xs : List DeployLog)
      → count (holds p) (update (hit i) (claim_row instance_id now p) xs)
        ≤ count (λ r. holds p r && not (has_id i r)) xs + count (has_id i) xs
  claim_own xs =
      count-update-le (holds p) (λ r. holds p r && not (has_id i r)) (has_id i) (hit i)
        (claim_row instance_id now p) xs λ r. ground arith

  claim_ids :
      (k : ℕ) (xs : List DeployLog)
      → count (has_id k) (update (hit i) (claim_row instance_id now p) xs)
        ≤ count (has_id k) xs + count (λ _. false) xs
  claim_ids k xs =
      count-update-le (has_id k) (has_id k) (λ _. false) (hit i) (claim_row instance_id now p) xs
        λ r. ground arith

  claim_exclusive :
      (k : String) → count (holds k) (update (hit i) (claim_row instance_id now p) s.logs) ≤ 1
  claim_exclusive k = elim (Bool-cases (str_eq p k)) [
    | inl same ↦ rw (← (eq_iff p k).0 same) (
        omega (
          arith,
          claim_own s.logs,
          v.unique i,
          count-eq-zero (λ r. holds p r && not (has_id i r)) s.logs free,
        ))
    | inr other ↦ omega (arith, claim_others k s.logs other, v.exclusive k, count-false s.logs)
  ]

  claim-IsValid : IsValid (record s { logs = update (hit i) (claim_row instance_id now p) s.logs })
  claim-IsValid = record {
    locked =
        All-update IsLocked IsLocked (hit i) (claim_row instance_id now p) s.logs (λ r _ _. refl)
          (λ r h _. h) v.locked;
    exclusive = claim_exclusive;
    fresh =
        All-update (λ r. r.id < s.next_log) (λ r. r.id < s.next_log) (hit i)
          (claim_row instance_id now p) s.logs (λ r h _. h) (λ r h _. h) v.fresh;
    unique = λ k. omega (arith, v.unique k, claim_ids k s.logs, count-false s.logs);
  }

claim_found-IsValid :
    (instance_id : String) (now : ℕ) (p : String) (o : Option DeployLog) (s : State)
    → IsValid s
    → IsValid (claim_found instance_id now p o s).1
claim_found-IsValid instance_id now p none s v = v
claim_found-IsValid instance_id now p (some row) s v =
    elim (Bool-cases (any (λ r. holds p r && not (r.id == row.id)) s.logs)) [
      | inl busy ↦ rw busy v
      | inr free ↦ rw free (elim (Bool-cases (ltb 0 (count (hit row.id) s.logs))) [
        | inl some_row ↦ rw some_row (claim-IsValid instance_id now p row.id s v free)
        | inr no_row ↦ rw no_row v
      ])
    ]

pub claim_pending_deploy_record-IsValid :
    (instance_id : String) (now : ℕ) (p : String) (a : ℕ) (s : State)
    → IsValid s
    → IsValid (claim_pending_deploy_record instance_id now p a s).1
unfolding claim_pending_deploy_record
claim_pending_deploy_record-IsValid instance_id now p a s v = elim (Bool-cases (a == 0)) [
  | inl none_given ↦ rw none_given v
  | inr given ↦ rw given (claim_found-IsValid instance_id now p _ s v)
]
