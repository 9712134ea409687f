-- ===== src/Base/Text.antt =====
-- JavaScript strings as lists of UTF-16 code units, where the program looks into them.
use Prim.Native.Nat.{ℕ, ◌+◌}
use Prim.Native.Char.{code}
use Prim.Native.String.{String}
use mathlib.Core.Path.{◌≡◌}
use mathlib.Core.Logic.{◌↔◌}
use mathlib.Core.Bool.{Bool, true, false, ◌&&◌}
use mathlib.Core.List.{List, [], ◌∷◌, map}
use native.Mathlib.Omega.{arith}
use connect_lib.Base.Tests.{if◌then◌else◌, leb, ◌==◌}
use connect_lib.Base.Dict.{Eq}

abbrev pub Text : Type 0
Text = List ℕ

-- The code units of an ASCII literal.
abbrev pub codes : String → Text
codes String.[] = []
codes (String.◌∷◌ c s) = code c ∷ codes s

abbrev pub text_eq : Text → Text → Bool
text_eq [] [] = true
text_eq (a ∷ s) (b ∷ t) = a == b && text_eq s t
text_eq _ _ = false

pub text_eq_iff : (s t : Text) → (text_eq s t ≡ true) ↔ (s ≡ t)
text_eq_iff [] [] = ground arith
text_eq_iff [] (b ∷ t) = ground arith
text_eq_iff (a ∷ s) [] = ground arith
text_eq_iff (a ∷ s) (b ∷ t) = ground (arith, text_eq_iff s t)

instance abbrev pub text_eq_of : Eq Text
text_eq_of = record { beq = text_eq; beq_iff = text_eq_iff }

abbrev pub pair_eq : ℕ × Text → ℕ × Text → Bool
pair_eq (a, s) (b, t) = a == b && text_eq s t

pub pair_eq_iff : (p q : ℕ × Text) → (pair_eq p q ≡ true) ↔ (p ≡ q)
pair_eq_iff (a, s) (b, t) = ground (arith, text_eq_iff s t)

-- The key `${chainId}:${hash}`: the decimal chain id holds no colon, so the pair is the text.
instance abbrev pub pair_eq_of : Eq (ℕ × Text)
pair_eq_of = record { beq = pair_eq; beq_iff = pair_eq_iff }

-- `toLowerCase` on one code unit of the ASCII range.
unfoldable pub lower_unit : ℕ → ℕ
lower_unit c = if leb b'A' c && leb c b'Z' then c + 32 else c

-- `toLowerCase`.
unfoldable pub to_lower_case : Text → Text
unfolding lower_unit
to_lower_case = map lower_unit
