-- ===== src/Base/Hex/Digits.antt =====
-- Hexadecimal digits: they are such digits, and they give the number again.
use Prim.Native.Nat.{ℕ, zero, suc, ◌+◌, ◌*◌, ◌/◌, ◌%◌, ◌<◌, ◌≤◌, ◌^◌}
use mathlib.Core.Path.{◌≡◌, refl}
use mathlib.Core.Logic.{inl, inr}
use mathlib.Core.Bool.{Bool, true, false}
use mathlib.Core.List.{[], ◌∷◌, ◌++◌}
use native.Mathlib.Omega.{arith}
use native.Mathlib.Nat.{pow-suc}
use connect_lib.Base.Tests.{ltb, Bool-cases}
use connect_lib.Base.Lists.{length, all, replicate, length-append}
use connect_lib.Base.Text.{Text}
use connect_lib.Base.Hex.{is_hex, hex_value, hex_from, hex_digit, hex_digits, hexadecimal}

hex_value-hex_digit : (n : ℕ) → n < 16 → hex_value (hex_digit n) ≡ n
unfolding hex_value hex_digit
hex_value-hex_digit n h = ground arith

is_hex-hex_digit : (n : ℕ) → n < 16 → is_hex (hex_digit n) ≡ true
unfolding hex_digit
is_hex-hex_digit n h = ground arith

pub hex_from-append : (acc : ℕ) (s t : Text) → hex_from acc (s ++ t) ≡ hex_from (hex_from acc s) t
unfolding hex_from
hex_from-append acc [] t = refl
hex_from-append acc (c ∷ s) t = hex_from-append (acc * 16 + hex_value c) s t

pub hex_from-zeros : (n : ℕ) (t : Text) → hex_from 0 (replicate n 48 ++ t) ≡ hex_from 0 t
unfolding hex_from hex_value
hex_from-zeros zero t = refl
hex_from-zeros (suc n) t = hex_from-zeros n t

pub all-append :
    (p : ℕ → Bool) (s t : Text) → all p s ≡ true → all p t ≡ true → all p (s ++ t) ≡ true
all-append p [] t h k = k
all-append p (c ∷ s) t h k = ground (arith, all-append p s t)

pub all_zeros : (n : ℕ) → all is_hex (replicate n 48) ≡ true
all_zeros zero = refl
all_zeros (suc n) = all_zeros n

hex_digits-small : (fuel n : ℕ) → ltb n 16 ≡ true → hex_digits (suc fuel) n ≡ hex_digit n ∷ []
unfolding hex_digits
hex_digits-small fuel n h = rw (h, hex_digits) refl

hex_digits-large :
    (fuel n : ℕ)
    → ltb n 16 ≡ false
    → hex_digits (suc fuel) n ≡ hex_digits fuel (n / 16) ++ hex_digit (n % 16) ∷ []
unfolding hex_digits
hex_digits-large fuel n h = rw (h, hex_digits) refl

hex_from-hex_digits : (fuel n : ℕ) → n < fuel → hex_from 0 (hex_digits fuel n) ≡ n
unfolding hex_from
hex_from-hex_digits zero n h = absurd (omega (arith, h))
hex_from-hex_digits (suc fuel) n h = elim (Bool-cases (ltb n 16)) [
  | inl small ↦
      let below : n < 16 = ground arith in
      rw (hex_digits-small fuel n small) (omega (arith, hex_value-hex_digit n below))
  | inr large ↦
      let rest = hex_from-hex_digits fuel (n / 16) (ground (arith, large)) in
      rw
        (
          hex_digits-large fuel n large,
          hex_from-append 0 (hex_digits fuel (n / 16)) (hex_digit (n % 16) ∷ []),
          rest,
          hex_value-hex_digit (n % 16) (omega arith),
        )
        (omega arith)
]

-- The number that the digits of `n` give is `n`.
pub hex_from-hexadecimal : (n : ℕ) → hex_from 0 (hexadecimal n) ≡ n
unfolding hexadecimal
hex_from-hexadecimal n = hex_from-hex_digits (suc n) n (omega arith)

is_hex-hex_digits : (fuel n : ℕ) → all is_hex (hex_digits fuel n) ≡ true
unfolding hex_digits
is_hex-hex_digits zero n = refl
is_hex-hex_digits (suc fuel) n = elim (Bool-cases (ltb n 16)) [
  | inl small ↦
      let below : n < 16 = ground arith in
      rw (hex_digits-small fuel n small, is_hex-hex_digit n below) refl
  | inr large ↦ rw (hex_digits-large fuel n large) (
      all-append is_hex (hex_digits fuel (n / 16)) (hex_digit (n % 16) ∷ [])
        (is_hex-hex_digits fuel (n / 16)) (rw (is_hex-hex_digit (n % 16) (omega arith)) refl))
]

pub is_hex-hexadecimal : (n : ℕ) → all is_hex (hexadecimal n) ≡ true
unfolding hexadecimal
is_hex-hexadecimal n = is_hex-hex_digits (suc n) n

length-hex_digits : (fuel n k : ℕ) → 0 < k → n < 16 ^ k → length (hex_digits fuel n) ≤ k
unfolding hex_digits
length-hex_digits zero n k some_digit h = omega arith
length-hex_digits (suc fuel) n zero some_digit h = absurd (omega (arith, some_digit))
length-hex_digits (suc fuel) n (suc zero) some_digit h =
    let small : ltb n 16 ≡ true = ground arith in rw (hex_digits-small fuel n small) (omega arith)
length-hex_digits (suc fuel) n (suc (suc k)) some_digit h = elim (Bool-cases (ltb n 16)) [
  | inl small ↦ rw (hex_digits-small fuel n small) (omega arith)
  | inr large ↦
      let power : 16 ^ suc (suc k) ≡ 16 ^ suc k * 16 = pow-suc 16 (suc k) in
      let rest = length-hex_digits fuel (n / 16) (suc k) (omega arith) (omega (arith, power, h)) in
      rw
        (
          hex_digits-large fuel n large,
          length-append (hex_digits fuel (n / 16)) (hex_digit (n % 16) ∷ []),
        )
        (omega (arith, rest))
]

pub length-hexadecimal : (n k : ℕ) → 0 < k → n < 16 ^ k → length (hexadecimal n) ≤ k
unfolding hexadecimal
length-hexadecimal n k = length-hex_digits (suc n) n k
