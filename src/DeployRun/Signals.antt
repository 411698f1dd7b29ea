-- ===== src/DeployRun/Signals.antt =====
-- `DeployRunManager` of backend/deploy_run.py: the events by deploy id. The dict is an association
-- list without repeated keys, and each method is one critical section of its lock.
use devops_cd.Prelude.{
  ℕ, Bool, true, false, Option, none, some, List, [], ◌∷◌, ◌≡◌, arith, ◌==◌, if◌then◌else◌,
}

abbrev pub Events : Type 0
Events = List (ℕ × Bool)

-- self._events.get(deploy_id)
unfoldable pub lookup : ℕ → Events → Option Bool
lookup k [] = none
lookup k ((j, b) ∷ m) = if j == k then some b else lookup k m

-- self._events[deploy_id] = ev
unfoldable pub insert : ℕ → Bool → Events → Events
insert k b [] = (k, b) ∷ []
insert k b ((j, c) ∷ m) = if j == k then (k, b) ∷ m else (j, c) ∷ insert k b m

-- self._events.pop(deploy_id, None)
unfoldable pub remove : ℕ → Events → Events
remove k [] = []
remove k ((j, b) ∷ m) = let rest = remove k m in if j == k then rest else (j, b) ∷ rest

register_event : ℕ → Option Bool → Events → Events
register_event k none m = insert k false m
register_event k (some true) m = m
register_event k (some false) m = insert k false m

-- A set event is kept: the cancel came before the registration.
unfoldable pub register : ℕ → Events → Events
unfolding lookup insert register_event
register k m = register_event k (lookup k m) m

unfoldable pub cancel : ℕ → Events → Events
unfolding insert
cancel k m = insert k true m

abbrev pub is_set : Option Bool → Bool
is_set none = false
is_set (some b) = b

unfoldable pub is_cancelled : ℕ → Events → Bool
unfolding lookup
is_cancelled k m = is_set (lookup k m)

unfoldable pub unregister : ℕ → Events → Events
unfolding remove
unregister k m = remove k m

unfoldable pub active_ids : Events → List ℕ
active_ids [] = []
active_ids ((j, b) ∷ m) = j ∷ active_ids m

unfoldable pub cancel_all : Events → Events
cancel_all [] = []
cancel_all ((j, b) ∷ m) = (j, true) ∷ cancel_all m

pub lookup-insert :
    (k j : ℕ) (b : Bool) (m : Events)
    → lookup j (insert k b m) ≡ (if k == j then some b else lookup j m)
unfolding lookup insert
lookup-insert k j b [] = ground arith
lookup-insert k j b ((i, c) ∷ m) = ground (arith, lookup-insert k j b m)

pub lookup-remove :
    (k j : ℕ) (m : Events) → lookup j (remove k m) ≡ (if k == j then none else lookup j m)
unfolding lookup remove
lookup-remove k j [] = ground arith
lookup-remove k j ((i, c) ∷ m) = ground (arith, lookup-remove k j m)

pub lookup-cancel_all :
    (j : ℕ) (m : Events)
    → lookup j (cancel_all m) ≡ elim (lookup j m) [ none ↦ none | some b ↦ some true ]
unfolding lookup cancel_all
lookup-cancel_all j [] = ground arith
lookup-cancel_all j ((i, c) ∷ m) = ground (arith, lookup-cancel_all j m)
