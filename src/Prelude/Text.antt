-- ===== src/Prelude/Text.antt =====
-- Texts by their code points: case folding and search, as `str` does them on ASCII.
use Prim.Native.Nat.{ℕ, ◌+◌}
use Prim.Native.Char.{code}
use Prim.Native.String.{String}
use mathlib.Core.Bool.{Bool, true, false, ◌&&◌, ◌||◌}
use mathlib.Core.List.{List, [], ◌∷◌, map}
use anti_subagent.Prelude.Tests.{leb, nat_eq, if◌then◌else◌}

abbrev pub codes : String → List ℕ
codes String.[] = []
codes (String.◌∷◌ c s) = code c ∷ codes s

-- `to_ascii_lowercase` on one code point.
abbrev pub lower_code : ℕ → ℕ
lower_code c = if leb b'A' c && leb c b'Z' then c + 32 else c

abbrev pub is_alphanumeric : ℕ → Bool
is_alphanumeric c =
    (leb b'a' c && leb c b'z') || ((leb b'A' c && leb c b'Z') || (leb b'0' c && leb c b'9'))

abbrev pub codes_eq : List ℕ → List ℕ → Bool
codes_eq [] [] = true
codes_eq (a ∷ as_) (b ∷ bs) = nat_eq a b && codes_eq as_ bs
codes_eq _ _ = false

abbrev pub is_prefix : List ℕ → List ℕ → Bool
is_prefix [] t = true
is_prefix (a ∷ p) [] = false
is_prefix (a ∷ p) (b ∷ t) = nat_eq a b && is_prefix p t

-- `t.contains(p)`.
abbrev pub is_infix : List ℕ → List ℕ → Bool
is_infix p [] = is_prefix p []
is_infix p (b ∷ t) = is_prefix p (b ∷ t) || is_infix p t

abbrev pub contains : String → String → Bool
contains s p = is_infix (codes p) (codes s)

-- `s.to_ascii_lowercase() == t`.
abbrev pub lower_eq : String → String → Bool
lower_eq s t = codes_eq (map lower_code (codes s)) (codes t)
