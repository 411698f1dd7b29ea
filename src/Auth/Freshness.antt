-- ===== src/Auth/Freshness.antt =====
-- What `get_identity` keeps true of the caches, whatever Glue answers.
use devops_cd.Prelude.{
  ℕ, ◌+◌, String, Bool, true, false, ◌||◌, Option, none, some, List, ltb, ◌==◌, ◌≡◌, refl, arith,
  inl, inr, Bool-cases,
}
use devops_cd.Text.{length, is_empty, strip, lower, append}
use devops_cd.Text.Dict.{get, put, AllValues, AllValues-pop}
use devops_cd.Auth.Glue.{
  Glue, Entry, Caches, UserBody, Fetched, Response, warn_throttled, role_permissions, role_lookup,
  role_answer, fetch_identity, soft_fail_or_raise, in_grace, with_perms, revalidate, invalidate,
  is_fresh, get_identity, window, remember, entry_of, last_ok, fresh_perms, glue_get, or_zero,
}

-- A usable entry was checked when it was last confirmed, and has permissions.
abbrev pub IsHonest : Entry → Type 0
IsHonest e =
    e.usable ≡ true
    → (e.last_ok_at ≡ e.checked_at) × ((perms : List String) × (e.permissions ≡ some perms))

abbrev pub IsSound : Caches → Type 0
IsSound s = AllValues IsHonest s.identities

-- Only the identities matter for soundness.
abbrev pub SameIdentities : Caches → Caches → Type 0
SameIdentities s t = t.identities ≡ s.identities

pub warn-Same : (now : ℕ) (key : String) (s : Caches) → SameIdentities s (warn_throttled now key s)
unfolding warn_throttled
warn-Same now key s = ground arith

role_answer-Same :
    (g : Glue) (now : ℕ) (role : String) (r : Response (List String)) (s : Caches)
    → SameIdentities s (role_answer g now role r s).1
role_answer-Same g now role Response.unreachable s = refl
role_answer-Same g now role Response.malformed s = refl
role_answer-Same g now role (Response.code n) s = elim (Bool-cases (n == 404)) [
  | inl missing ↦ rw missing (
      warn-Same now (append "role404:" role)
        (record s { negative = put role (now + window g) s.negative }))
  | inr other ↦ rw other refl
]
role_answer-Same g now role (Response.body perms) s = refl

role_lookup-Same :
    (g : Glue) (now : ℕ) (role : String) (o : Option (List String)) (s : Caches)
    → SameIdentities s (role_lookup g now role o s).1
role_lookup-Same g now role (some perms) s = refl
role_lookup-Same g now role none s = elim (Bool-cases (ltb now (or_zero (get role s.negative)))) [
  | inl negative ↦ rw negative refl
  | inr ask ↦ rw ask (role_answer-Same g now role (glue_get g (g.roles role)) s)
]

pub role_permissions-Same :
    (g : Glue) (now : ℕ) (raw : String) (s : Caches)
    → SameIdentities s (role_permissions g now raw s).1
unfolding role_permissions
role_permissions-Same g now raw s = elim (Bool-cases (is_empty (strip raw))) [
  | inl bare ↦ rw bare refl
  | inr named ↦
      rw named (role_lookup-Same g now (strip raw) (fresh_perms g now (get (strip raw) s.perms)) s)
]

Same-IsSound : (s t : Caches) → SameIdentities s t → IsSound s → IsSound t
Same-IsSound s t e h = rw e h

soft_fail-IsSound :
    (g : Glue) (now : ℕ) (key : String) (o : Option Entry) (s : Caches)
    → IsSound s
    → IsSound (soft_fail_or_raise g now key o s).1
unfolding soft_fail_or_raise
soft_fail-IsSound g now key none s h = h
soft_fail-IsSound g now key (some e) s h = elim (Bool-cases (in_grace g now e)) [
  | inl inside ↦ rw inside (
      Same-IsSound s (warn_throttled now (append "softfail:" key) s)
        (warn-Same now (append "softfail:" key) s) h)
  | inr late ↦ rw late h
]

remember-IsSound :
    (key : String) (e : Entry) (s : Caches) → IsHonest e → IsSound s → IsSound (remember key e s)
remember-IsSound key e s a h = (a, AllValues-pop IsHonest key s.identities h)

with_perms-IsSound :
    (g : Glue) (now : ℕ) (key : String) (o : Option Entry) (u : UserBody)
    (r : Fetched (List String) × Caches)
    → IsSound r.1
    → IsSound (with_perms g now key o u r).1
with_perms-IsSound g now key o u (Fetched.denied, s) h =
    remember-IsSound key (entry_of u none false now (last_ok o)) s (λ e. absurd (ground arith)) h
with_perms-IsSound g now key o u (Fetched.transient, s) h = soft_fail-IsSound g now key o s h
with_perms-IsSound g now key o u (Fetched.got perms, s) h =
    remember-IsSound key (entry_of u (some perms) true now now) s (λ _. (refl, (perms, refl))) h

invalidate-IsSound : (username : String) (s : Caches) → IsSound s → IsSound (invalidate username s)
unfolding invalidate
invalidate-IsSound username s h = AllValues-pop IsHonest (lower (strip username)) s.identities h

revalidate-IsSound :
    (g : Glue) (now : ℕ) (key : String) (o : Option Entry) (r : Fetched UserBody) (s : Caches)
    → IsSound s
    → IsSound (revalidate g now key o r s).1
revalidate-IsSound g now key o Fetched.denied s h = invalidate-IsSound key s h
revalidate-IsSound g now key o Fetched.transient s h = soft_fail-IsSound g now key o s h
revalidate-IsSound g now key o (Fetched.got u) s h =
    let t = (role_permissions g now u.role s).1 in
    with_perms-IsSound g now key o u (role_permissions g now u.role s)
      (Same-IsSound s t (role_permissions-Same g now u.role s) h)

-- `get_identity` keeps the caches sound, whatever Glue answers.
pub identity_keeps_IsSound :
    (g : Glue) (now : ℕ) (username : String) (force : Bool) (s : Caches)
    → IsSound s
    → IsSound (get_identity g now username force s).1
unfolding get_identity
identity_keeps_IsSound g now username force s h =
    let key = lower (strip username) in
    elim (Bool-cases (is_empty key || ltb 128 (length key))) [
      | inl bad ↦ rw bad h
      | inr fine ↦ rw fine (elim (Bool-cases (is_fresh g now force (get key s.identities))) [
        | inl hit ↦ rw hit h
        | inr miss ↦
            rw miss (revalidate-IsSound g now key (get key s.identities) (fetch_identity g key) s h)
      ])
    ]
