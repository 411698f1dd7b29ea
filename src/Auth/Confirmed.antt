-- ===== src/Auth/Confirmed.antt =====
-- That an identity which `get_identity` returns is an answer of Glue: which call got it, and when.
use devops_cd.Prelude.{ℕ, ◌+◌, ◌≤◌, ◌<◌, String, Bool, true, some, List, [], ◌∷◌, ◌≡◌, ◌⊎◌, All}
use devops_cd.Text.{strip, lower}
use devops_cd.Result.{Result, OnOk}
use devops_cd.Auth.Glue.{
  Glue, Entry, Caches, UserBody, Fetched, role_permissions, fetch_identity, invalidate,
  get_identity, reset_cache, window, entry_of,
}

-- A call of `get_identity`, with the Glue that it meets.
pub record Call : Type 0 where
  pub glue : Glue
  pub now : ℕ
  pub username : String
  pub force : Bool

-- What has happened to the caches of a process.
pub data Event : Type 0 where
  asked : Call → Event
  forgotten : String → Event
  reset : Event

abbrev pub key_of : Call → String
key_of k = lower (strip k.username)

abbrev pub answer : Call → Caches → Result Entry × Caches
answer k s = get_identity k.glue k.now k.username k.force s

abbrev pub no_caches : Caches
no_caches = record { identities = []; perms = []; negative = []; last_warn = []; warnings = [] }

-- The caches after the events, the latest of which comes first.
abbrev pub after : List Event → Caches
after [] = no_caches
after (Event.asked k ∷ h) = (answer k (after h)).1
after (Event.forgotten name ∷ h) = invalidate name (after h)
after (Event.reset ∷ h) = reset_cache (after h)

-- The call, made on the caches `s`, asked Glue for the user of the key, and the entry is what Glue
-- answered, with the permissions of the role that it answered, at the time of the call.
pub record ConfirmedBy (k : Call) (s : Caches) (key : String) (e : Entry) : Type 0 where
  pub same_key : key_of k ≡ key
  pub time : k.now ≡ e.last_ok_at
  pub body : UserBody
  pub perms : List String
  pub answered : fetch_identity k.glue key ≡ Fetched.got body
  pub granted : (role_permissions k.glue k.now body.role s).0 ≡ Fetched.got perms
  pub same_entry : e ≡ entry_of body (some perms) true k.now k.now

-- One of the calls has confirmed the entry.
abbrev pub Confirmed : List Event → String → Entry → Type 0
Confirmed [] key e = ⊥
Confirmed (Event.asked k ∷ h) key e = ConfirmedBy k (after h) key e ⊎ Confirmed h key e
Confirmed (Event.forgotten name ∷ h) key e = Confirmed h key e
Confirmed (Event.reset ∷ h) key e = Confirmed h key e

-- A usable entry was last checked when it was confirmed.
abbrev Sure : List Event → String × Entry → Type 0
Sure h (key, e) = e.usable ≡ true → (e.last_ok_at ≡ e.checked_at) × Confirmed h key e

-- Confirmed within the revalidation window or within the grace period.
abbrev pub IsCurrent : List Event → Call → Entry → Type 0
IsCurrent h k e =
    Confirmed h (key_of k) e
    × ((k.now < e.last_ok_at + window k.glue) ⊎ (k.now ≤ e.last_ok_at + k.glue.stale_grace_seconds))

module _ (h : List Event) (k : Call) where
  abbrev now_on : List Event
  now_on = Event.asked k ∷ h

  -- What an answer is, and the caches behind it.
  abbrev Holds : Result Entry × Caches → Type 0
  Holds r = OnOk (IsCurrent now_on k) r.0 × All (Sure now_on) r.1.identities
