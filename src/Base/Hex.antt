-- ===== src/Base/Hex.antt =====
-- Hexadecimal texts.
pub mod Digits
use Prim.Native.Nat.{ℕ, zero, suc, ◌+◌, ◌-◌, ◌*◌, ◌/◌, ◌%◌}
use mathlib.Core.Bool.{Bool, true, false, ◌&&◌, ◌||◌}
use mathlib.Core.List.{List, [], ◌∷◌, ◌++◌}
use connect_lib.Base.Tests.{leb, ltb, ◌==◌, if◌then◌else◌}
use connect_lib.Base.Lists.{length, take, drop, all}
use connect_lib.Base.Text.{Text, codes, text_eq}

-- `[0-9a-fA-F]`
abbrev pub is_hex : ℕ → Bool
is_hex c = leb 48 c && leb c 57 || leb 97 c && leb c 102 || leb 65 c && leb c 70

-- the value of such a digit
unfoldable pub hex_value : ℕ → ℕ
hex_value c = if leb c 57 then c - 48 else if leb c 70 then c - 55 else c - 87

-- `Number.parseInt(hex, 16)` and `BigInt` of a hexadecimal text
unfoldable pub hex_from : ℕ → Text → ℕ
hex_from acc [] = acc
hex_from acc (c ∷ cs) = hex_from (acc * 16 + hex_value c) cs

-- "0x", then digits
unfoldable pub is_hex_of : ℕ → Text → Bool
is_hex_of n t = text_eq (take 2 t) (codes "0x") && length t == n + 2 && all is_hex (drop 2 t)

unfoldable pub hex_digit : ℕ → ℕ
hex_digit n = if leb 10 n then n + 87 else n + 48

-- The digits of `n`, the last one outermost; a number has fewer digits than itself plus one.
unfoldable pub hex_digits : ℕ → ℕ → Text
hex_digits zero n = []
hex_digits (suc fuel) n = elim (ltb n 16) [
  | true ↦ hex_digit n ∷ []
  | false ↦ hex_digits fuel (n / 16) ++ hex_digit (n % 16) ∷ []
]

-- `toString(16)`
unfoldable pub hexadecimal : ℕ → Text
hexadecimal n = hex_digits (suc n) n

-- `b.toString(16).padStart(2, "0")`, of a byte
unfoldable pub hex_byte : ℕ → Text
hex_byte b = hex_digit (b / 16) ∷ hex_digit (b % 16) ∷ []

-- `bytesToHex`
unfoldable pub hex_bytes : List ℕ → Text
hex_bytes [] = []
hex_bytes (b ∷ bs) = hex_byte b ++ hex_bytes bs

-- `hexToBytes`, of a text of pairs of digits
unfoldable pub bytes_of_hex : Text → List ℕ
bytes_of_hex (c ∷ d ∷ cs) = (hex_value c * 16 + hex_value d) ∷ bytes_of_hex cs
bytes_of_hex _ = []
