-- ===== src/Common/Text.antt =====
-- The readings of a `str` that the program makes.
use Prim.Native.Nat.{ℕ, ◌-◌}
use mathlib.Core.Path.{◌≡◌, refl, ap}
use mathlib.Core.Logic.{◌↔◌}
use native.Mathlib.Omega.{arith}
use Prim.Native.Char.{code}
use Prim.Native.String.{String}
use mathlib.Core.Bool.{Bool, true, false, ◌&&◌, ◌||◌}
use mathlib.Core.List.{List, [], ◌∷◌, reverse}
use ai_calling_agent.Common.Tests.{leb, ◌==◌, if◌then◌else◌}
use ai_calling_agent.Common.Lists.{all, any}

-- A text that the program takes apart: its code points.
abbrev pub Text : Type 0
Text = List ℕ

-- The code points of a text.
abbrev pub codes : String → List ℕ
codes String.[] = []
codes (String.◌∷◌ c s) = code c ∷ codes s

-- `str.isspace` of one character.
unfoldable pub is_space : ℕ → Bool
is_space c =
    (leb 9 c && leb c 13)
    || (leb 28 c && leb c 32)
    || (c == 133)
    || (c == 160)
    || (c == 5760)
    || (leb 8192 c && leb c 8202)
    || (c == 8232)
    || (c == 8233)
    || (c == 8239)
    || (c == 8287)
    || (c == 12288)

-- `not s.strip()`
unfoldable pub is_blank : Text → Bool
unfolding is_space
is_blank s = all is_space s

abbrev first : List ℕ → ℕ
first [] = 0
first (c ∷ _) = c

abbrev rest : List ℕ → List ℕ
rest [] = []
rest (_ ∷ s) = s

-- `==` of two such texts.
abbrev pub text_eq : Text → Text → Bool
text_eq [] [] = true
text_eq (c ∷ s) (d ∷ t) = c == d && text_eq s t
text_eq _ _ = false

pub text_eq_iff : (s t : Text) → (text_eq s t ≡ true) ↔ (s ≡ t)
text_eq_iff [] [] = (λ _. refl, λ _. refl)
text_eq_iff [] (d ∷ t) = (λ h. cc, λ h. cc)
text_eq_iff (c ∷ s) [] = (λ h. cc, λ h. cc)
text_eq_iff (c ∷ s) (d ∷ t) = (
  λ h. ground (arith, text_eq_iff s t),
  λ h. ground (arith, text_eq_iff s t, ap (λ (u : Text). first u) h, ap (λ (u : Text). rest u) h),
)

pub text_eq_refl : (s : Text) → text_eq s s ≡ true
text_eq_refl s = (text_eq_iff s s).1 refl

-- `s in texts`
abbrev pub text_in : Text → List Text → Bool
text_in s texts = any (λ (t : Text). text_eq s t) texts

-- `str.upper` of an ASCII text.
abbrev pub upper : Text → Text
upper [] = []
upper (c ∷ s) = (if leb b'a' c && leb c b'z' then c - 32 else c) ∷ upper s

-- `s.lstrip()`, and `s.strip()`, which does the same from the other end.
unfoldable pub strip_left : Text → Text
unfolding is_space
strip_left [] = []
strip_left (c ∷ s) = let rest = strip_left s in if is_space c then rest else c ∷ s

unfoldable pub strip : Text → Text
unfolding strip_left
strip s = reverse (strip_left (reverse (strip_left s)))
