-- ===== src/Routes/Stopping.antt =====
-- What `deploy_cancel` cancels.
use devops_cd.Prelude.{
  ℕ, Bool, true, false, ◌&&◌, ◌≡◌, refl, sym, arith, ◌⊎◌, inl, inr, Bool-cases, Option, none, some,
  ◌==◌, any, any-update, found-last, found-count, lt→ltb, str_eq,
}
use mathlib.Core.Path.{subst}
use devops_cd.Text.{is_empty}
use devops_cd.Result.{Result, ok, err}
use devops_cd.State.{LogStatus, Settings, DeployLog, State, User}
use devops_cd.DeployRun.Signals
use devops_cd.DeployRun.Records.{is_running, mark_deploy_cancelled, release_row}
use devops_cd.Deploy.Closing.{runs_as}
use devops_cd.Routes.Cancel.{
  CancelRequest, find_cancelled, check_cancel_perm, cancel_checked, cancel_found, deploy_cancel,
}

abbrev pub names_nothing : CancelRequest → Bool
names_nothing q = (q.deploy_id == 0) && is_empty q.project

-- What the reply says of the record that the request names and of the state.
abbrev pub Stopped :
    Settings → User → CancelRequest → Option DeployLog → State → Result Bool × State → Type 0
Stopped c u q found s (err e, t) =
    (t ≡ s)
    × ((names_nothing q ≡ true)
        ⊎ ((r : DeployLog) × (found ≡ some r) × (check_cancel_perm c u r ≡ err e)))
Stopped c u q found s (ok false, t) = (t ≡ s) × (found ≡ none)
Stopped c u q found s (ok true, t) =
    (r : DeployLog) × (found ≡ some r)
    × (is_running r.status ≡ true)
    × (check_cancel_perm c u r ≡ ok tt)
    × (any (runs_as r.id) t.logs ≡ false)
    × (Signals.is_cancelled r.id t.events ≡ true)

found-running :
    (q : CancelRequest) (s : State) (r : DeployLog)
    → find_cancelled q s ≡ some r
    → is_running r.status ≡ true
unfolding find_cancelled
found-running q s r e = elim (Bool-cases (q.deploy_id == 0)) [
  | inl by_project ↦
      let h =
        found-last (λ (r : DeployLog). str_eq r.project q.project && is_running r.status) s.logs r
          (rw by_project at e) in
      ground arith
  | inr by_id ↦
      let h =
        found-last (λ (r : DeployLog). r.id == q.deploy_id && is_running r.status) s.logs r
          (rw by_id at e) in
      ground arith
]

found-counted :
    (q : CancelRequest) (s : State) (r : DeployLog)
    → find_cancelled q s ≡ some r
    → (mark_deploy_cancelled r.id s).0 ≡ true
unfolding find_cancelled mark_deploy_cancelled
found-counted q s r e =
    let run = found-running q s r e in
    let hit : runs_as r.id r ≡ true = ground arith in
    elim (Bool-cases (q.deploy_id == 0)) [
      | inl by_project ↦ lt→ltb 0 _ (found-count _ (runs_as r.id) s.logs r (rw by_project at e) hit)
      | inr by_id ↦ lt→ltb 0 _ (found-count _ (runs_as r.id) s.logs r (rw by_id at e) hit)
    ]

marked-closed : (d : ℕ) (s : State) → any (runs_as d) (mark_deploy_cancelled d s).1.logs ≡ false
unfolding mark_deploy_cancelled
marked-closed d s =
    any-update (runs_as d) (runs_as d) (release_row LogStatus.terminated) s.logs
      (λ x _. ground arith) (λ x miss. miss)

marked-signalled :
    (d : ℕ) (s : State) → Signals.is_cancelled d (mark_deploy_cancelled d s).1.events ≡ true
unfolding mark_deploy_cancelled Signals.is_cancelled Signals.cancel
marked-signalled d s = ground (arith, Signals.lookup-insert d d true s.events)

-- After the check of the permission, for a record that the query has found.
cancel_checked-Stopped :
    (c : Settings) (u : User) (q : CancelRequest) (s : State) (r : DeployLog)
    (k : Result (Unit {0}))
    → find_cancelled q s ≡ some r
    → check_cancel_perm c u r ≡ k
    → Stopped c u q (find_cancelled q s) s (cancel_checked r.id k s)
cancel_checked-Stopped c u q s r (err e) found h = (refl, inr (r, found, h))
cancel_checked-Stopped c u q s r (ok _) found h =
    subst (λ b. Stopped c u q (find_cancelled q s) s (ok b, (mark_deploy_cancelled r.id s).1))
      (sym (found-counted q s r found))
      (r, found, found-running q s r found, h, marked-closed r.id s, marked-signalled r.id s)

cancel_found-Stopped :
    (c : Settings) (u : User) (q : CancelRequest) (s : State) (o : Option DeployLog)
    → find_cancelled q s ≡ o
    → Stopped c u q (find_cancelled q s) s (cancel_found c u o s)
cancel_found-Stopped c u q s none found = (refl, found)
cancel_found-Stopped c u q s (some r) found =
    cancel_checked-Stopped c u q s r (check_cancel_perm c u r) found refl

-- A cancel request that raises changes nothing, and then it names neither an id nor a project, or
-- the user may not deploy the type of the record that it names. One that reports no success changes
-- nothing, and no running record is named. Where it reports a success, the record that it names was
-- running, the user may deploy its type, no record with the id runs any more and the cancel signal
-- is set.
pub deploy_cancel-Stopped :
    (c : Settings) (q : CancelRequest) (u : User) (s : State)
    → Stopped c u q (find_cancelled q s) s (deploy_cancel c q u s)
unfolding deploy_cancel
deploy_cancel-Stopped c q u s = elim (Bool-cases (names_nothing q)) [
  | inl nothing ↦ rw nothing (refl, inl nothing)
  | inr named ↦ rw named (cancel_found-Stopped c u q s (find_cancelled q s) refl)
]
