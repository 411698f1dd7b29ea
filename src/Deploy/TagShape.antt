-- ===== src/Deploy/TagShape.antt =====
-- What a tag that `validate_tag` lets through is made of.
use Prim.Native.Char.{Char}
use devops_cd.Prelude.{ℕ, ◌≤◌, suc, String, Bool, true, ◌&&◌, ◌≡◌, ◌⊎◌}
use devops_cd.Text.{append}
use devops_cd.Deploy.Tag.{is_tag_char}

-- Every character of a text passes the test.
abbrev pub every : (Char → Bool) → String → Bool
every p String.[] = true
every p (String.◌∷◌ c s) = p c && every p s

abbrev pub size : String → ℕ
size String.[] = 0
size (String.◌∷◌ c s) = suc (size s)

abbrev IsEnd : String → Type 0
IsEnd t = (t ≡ "") ⊎ (t ≡ "\n")

-- At most `n` characters of a tag, and perhaps a newline behind them.
pub record Body (n : ℕ) (s : String) : Type 0 where
  pub body : String
  pub rest : String
  pub is_all : append body rest ≡ s
  pub ends : IsEnd rest
  pub safe : every is_tag_char body ≡ true
  pub short : size body ≤ n
