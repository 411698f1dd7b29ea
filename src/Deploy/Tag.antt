-- ===== src/Deploy/Tag.antt =====
-- `validate_tag` of backend/deployers/base.py.
use Prim.Native.Char.{Char, code}
use devops_cd.Prelude.{ℕ, ◌-◌, String, Bool, true, false, ◌&&◌, ◌||◌, ltb, leb, ◌==◌, ◌≡◌, refl}
use devops_cd.Text.{is_empty}

-- [A-Za-z0-9_]
abbrev pub is_word : Char → Bool
is_word c =
    leb b'A' (code c) && leb (code c) b'Z'
    || (leb b'a' (code c) && leb (code c) b'z')
    || (leb b'0' (code c) && leb (code c) b'9')
    || code c == b'_'

-- [A-Za-z0-9._-]
abbrev pub is_tag_char : Char → Bool
is_tag_char c = is_word c || code c == b'.' || code c == b'-'

-- [A-Za-z0-9._-]{0,n}$, where `$` also matches before a newline at the end.
unfoldable pub tag_rest : ℕ → String → Bool
tag_rest n String.[] = true
tag_rest n (String.◌∷◌ c s) =
    let rest = tag_rest (n - 1) s in
    code c == 10 && is_empty s || (ltb 0 n && is_tag_char c && rest)

-- _TAG_RE.match(tag); `validate_tag` raises InvalidTag, a ValueError, where it is false.
unfoldable pub valid_tag : String → Bool
unfolding tag_rest
valid_tag String.[] = false
valid_tag (String.◌∷◌ c s) = is_word c && tag_rest 127 s

accepts : valid_tag "v1.2-rc_3" ≡ true
unfolding valid_tag
accepts = refl

refuses : valid_tag "v1;id" ≡ false
unfolding valid_tag
refuses = refl

newline : valid_tag "v1\n" ≡ true
unfolding valid_tag
newline = refl
