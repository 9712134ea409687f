-- ===== src/Rlp/Lengths.antt =====
-- rlp.ts: the bytes of a length.
use connect_lib.Base.{
  ℕ, ◌+◌, ◌*◌, ◌/◌, ◌^◌, ◌<◌, ◌≤◌, ◌≡◌, refl, ◌∙◌, inl, inr, true, [], ◌∷◌, arith, length,
  Bool-cases,
}
use connect_lib.Base.Bytes.{Bytes}
use connect_lib.Base.Hex.{hex_value, hex_from, hexadecimal, bytes_of_hex}
use connect_lib.Base.Hex.Digits.{hex_from-hexadecimal, length-hexadecimal}
use connect_lib.Base.Text.{Text}
use connect_lib.Rlp.{is_even, pad_even, length_bytes}

-- The number that bytes are, the most significant first.
unfoldable pub from_be : ℕ → Bytes → ℕ
from_be acc [] = acc
from_be acc (b ∷ bs) = from_be (acc * 256 + b) bs

from_be-bytes_of_hex :
    (acc : ℕ) (t : Text) → is_even t ≡ true → from_be acc (bytes_of_hex t) ≡ hex_from acc t
unfolding from_be bytes_of_hex hex_from
from_be-bytes_of_hex acc [] h = refl
from_be-bytes_of_hex acc (c ∷ []) h = absurd (ground (arith, h))
from_be-bytes_of_hex acc (c ∷ d ∷ t) h =
    let same : acc * 256 + (hex_value c * 16 + hex_value d)
        ≡ (acc * 16 + hex_value c) * 16 + hex_value d =
      omega arith in
    rw same
      (from_be-bytes_of_hex ((acc * 16 + hex_value c) * 16 + hex_value d) t (ground (arith, h)))

length-bytes_of_hex : (t : Text) → length (bytes_of_hex t) ≤ length t / 2
unfolding bytes_of_hex
length-bytes_of_hex [] = omega arith
length-bytes_of_hex (c ∷ []) = omega arith
length-bytes_of_hex (c ∷ d ∷ t) = omega (arith, length-bytes_of_hex t)

pad_even-is_even : (t : Text) → is_even (pad_even t) ≡ true
unfolding pad_even
pad_even-is_even t = ground arith

hex_from-pad_even : (t : Text) → hex_from 0 (pad_even t) ≡ hex_from 0 t
unfolding pad_even hex_from hex_value
hex_from-pad_even t = elim (Bool-cases (is_even t)) [
  | inl even ↦ rw even refl
  | inr odd ↦ rw odd refl
]

length-pad_even : (t : Text) (k : ℕ) → length t ≤ 2 * k → length (pad_even t) ≤ 2 * k
unfolding pad_even
length-pad_even t k h = elim (Bool-cases (is_even t)) [
  | inl even ↦ rw even h
  | inr odd ↦ rw odd (ground (arith, h))
]

-- The bytes of a length are its number, and for a length below 2 ^ 64 they are at most eight.
pub from_be-length_bytes : (n : ℕ) → from_be 0 (length_bytes n) ≡ n
unfolding length_bytes
from_be-length_bytes n =
    from_be-bytes_of_hex 0 (pad_even (hexadecimal n)) (pad_even-is_even (hexadecimal n))
    ∙ hex_from-pad_even (hexadecimal n)
    ∙ hex_from-hexadecimal n

pub length-length_bytes : (n : ℕ) → n < 2 ^ 64 → length (length_bytes n) ≤ 8
unfolding length_bytes
length-length_bytes n h =
    let digits = length-hexadecimal n 16 (omega arith) (omega (arith, h)) in
    let padded = length-pad_even (hexadecimal n) 8 (omega (arith, digits)) in
    omega (arith, length-bytes_of_hex (pad_even (hexadecimal n)), padded)

pub length_bytes-some : (n : ℕ) → 0 < n → 0 < length (length_bytes n)
unfolding from_be
length_bytes-some n h = go (length_bytes n) (from_be-length_bytes n)
  where
    go : (bs : Bytes) → from_be 0 bs ≡ n → 0 < length bs
    go [] is = absurd (omega (arith, is, h))
    go (b ∷ bs) is = omega arith
