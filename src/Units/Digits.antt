-- ===== src/Units/Digits.antt =====
-- What stripping and padding do to the value of a text of digits.
use connect_lib.Base.{
  ℕ, zero, suc, ◌+◌, ◌-◌, ◌*◌, ◌/◌, ◌%◌, ◌<◌, ◌≤◌, ◌≡◌, refl, ap, ◌∙◌, inl, inr, true, ◌&&◌, [],
  ◌∷◌, ◌++◌, arith, ltb, ◌==◌, length, take, drop, replicate, all, Bool-cases, length-append,
  length-replicate,
}
use connect_lib.Base.Decimal.{digits, decimal}
use connect_lib.Base.Text.{Text}
use connect_lib.Units.{
  is_digit, strip_leading, or_zero, keep_unless_zero, strip_trailing, pad_end, pad_start,
  value_from,
}

pub value_from-append :
    (acc : ℕ) (s t : Text) → value_from acc (s ++ t) ≡ value_from (value_from acc s) t
unfolding value_from
value_from-append acc [] t = refl
value_from-append acc (c ∷ s) t = value_from-append (acc * 10 + (c - b'0')) s t

value_from-zeros : (n : ℕ) (t : Text) → value_from 0 (replicate n b'0' ++ t) ≡ value_from 0 t
unfolding value_from
value_from-zeros zero t = refl
value_from-zeros (suc n) t = value_from-zeros n t

value_from-digits : (fuel n : ℕ) → n < fuel → value_from 0 (digits fuel n) ≡ n
unfolding digits value_from
value_from-digits zero n h = omega arith
value_from-digits (suc fuel) n h = elim (Bool-cases (ltb n 10)) [
  | inl one ↦ rw (one, digits) (omega arith)
  | inr more ↦
      let rest : value_from 0 (digits fuel (n / 10)) ≡ n / 10 =
        value_from-digits fuel (n / 10) (ground arith) in
      rw (more, digits, value_from-append 0 (digits fuel (n / 10)) ((48 + n % 10) ∷ []), rest)
        (omega arith)
]

pub value_from-pad_start : (n m : ℕ) → value_from 0 (pad_start (decimal n) m) ≡ n
unfolding pad_start decimal
value_from-pad_start n m =
    value_from-zeros (m - length (decimal n)) (decimal n)
    ∙ value_from-digits (suc n) n (omega arith)

pub value_from-strip_leading :
    (s : Text) → value_from 0 (or_zero (strip_leading s)) ≡ value_from 0 s
unfolding strip_leading or_zero value_from
value_from-strip_leading [] = refl
value_from-strip_leading (c ∷ s) = elim (Bool-cases (c == b'0')) [
  | inl zero_unit ↦
      let same : c - b'0' ≡ 0 = ground arith in
      rw (zero_unit, strip_leading, same) (value_from-strip_leading s)
  | inr other ↦ rw (other, strip_leading) refl
]

pub pad_end-strip_trailing : (s : Text) → pad_end (strip_trailing s) (length s) ≡ s
unfolding pad_end strip_trailing keep_unless_zero
pad_end-strip_trailing [] = refl
pad_end-strip_trailing (c ∷ s) = go (strip_trailing s) (pad_end-strip_trailing s)
  where
    go :
        (t : Text)
        → t ++ replicate (length s - length t) b'0' ≡ s
        → pad_end (keep_unless_zero c t) (suc (length s)) ≡ c ∷ s
    go [] h = elim (Bool-cases (c == b'0')) [
      | inl zero_unit ↦
          let is : c ≡ b'0' = ground arith in
          let whole : suc (length s) - 0 ≡ suc (length s) = omega arith in
          let part : length s - 0 ≡ length s = omega arith in
          let zeros : replicate (length s) b'0' ≡ s = rw part at h in
          rw (zero_unit, is, whole) (ap (λ l. b'0' ∷ l) zeros)
      | inr other ↦
          let less : suc (length s) - 1 ≡ length s - 0 = omega arith in
          rw (other, less) (ap (λ l. c ∷ l) h)
    ]
    go (d ∷ t) h =
        let less : suc (length s) - suc (suc (length t)) ≡ length s - suc (length t) =
          omega arith in
        rw less (ap (λ l. c ∷ l) h)

length-keep_unless_zero : (c : ℕ) (t : Text) → length (keep_unless_zero c t) ≤ suc (length t)
unfolding keep_unless_zero
length-keep_unless_zero c [] = ground arith
length-keep_unless_zero c (d ∷ t) = omega arith

pub length-strip_trailing : (s : Text) → length (strip_trailing s) ≤ length s
unfolding strip_trailing
length-strip_trailing [] = omega arith
length-strip_trailing (c ∷ s) =
    omega (arith, length-strip_trailing s, length-keep_unless_zero c (strip_trailing s))

pub length-drop : (n : ℕ) (s : Text) → length (drop n s) ≡ length s - n
length-drop zero s = omega arith
length-drop (suc n) [] = omega arith
length-drop (suc n) (c ∷ s) = omega (arith, length-drop n s)

pub take-drop : (n : ℕ) (s : Text) → take n s ++ drop n s ≡ s
take-drop zero s = refl
take-drop (suc n) [] = refl
take-drop (suc n) (c ∷ s) = ap (λ l. c ∷ l) (take-drop n s)

pub length-pad_start : (s : Text) (m : ℕ) → m ≤ length (pad_start s m)
unfolding pad_start
length-pad_start s m = omega (
  arith,
  length-append (replicate (m - length s) b'0') s,
  length-replicate {A = ℕ} (m - length s) b'0',
)

-- Texts of digits.
pub all-append : (s t : Text) → all is_digit (s ++ t) ≡ (all is_digit s && all is_digit t)
all-append [] t = refl
all-append (c ∷ s) t = ground (arith, all-append s t)

pub all-replicate : (n : ℕ) → all is_digit (replicate n b'0') ≡ true
unfolding is_digit
all-replicate zero = refl
all-replicate (suc n) = all-replicate n

pub all-take : (n : ℕ) (s : Text) → all is_digit s ≡ true → all is_digit (take n s) ≡ true
all-take zero s h = refl
all-take (suc n) [] h = refl
all-take (suc n) (c ∷ s) h = ground (arith, all-take n s)

pub all-drop : (n : ℕ) (s : Text) → all is_digit s ≡ true → all is_digit (drop n s) ≡ true
all-drop zero s h = h
all-drop (suc n) [] h = refl
all-drop (suc n) (c ∷ s) h = ground (arith, all-drop n s)

all-digits : (fuel n : ℕ) → all is_digit (digits fuel n) ≡ true
unfolding digits is_digit
all-digits zero n = refl
all-digits (suc fuel) n = elim (Bool-cases (ltb n 10)) [
  | inl one ↦ rw (one, digits) (ground arith)
  | inr more ↦
      rw (more, digits)
        (ground
          (arith, all-append (digits fuel (n / 10)) ((48 + n % 10) ∷ []), all-digits fuel (n / 10)))
]

pub all-pad_start : (n m : ℕ) → all is_digit (pad_start (decimal n) m) ≡ true
unfolding pad_start decimal
all-pad_start n m = ground (
  arith,
  all-append (replicate (m - length (decimal n)) b'0') (decimal n),
  all-replicate (m - length (decimal n)),
  all-digits (suc n) n,
)

pub all-strip_leading :
    (s : Text) → all is_digit s ≡ true → all is_digit (or_zero (strip_leading s)) ≡ true
unfolding strip_leading or_zero is_digit
all-strip_leading [] h = refl
all-strip_leading (c ∷ s) h = elim (Bool-cases (c == b'0')) [
  | inl zero_unit ↦ rw (zero_unit, strip_leading) (all-strip_leading s (ground arith))
  | inr other ↦ rw (other, strip_leading) h
]

all-keep :
    (c : ℕ) (t : Text)
    → is_digit c ≡ true
    → all is_digit t ≡ true
    → all is_digit (keep_unless_zero c t) ≡ true
unfolding keep_unless_zero
all-keep c [] is h = ground arith
all-keep c (d ∷ t) is h = ground arith

pub all-strip_trailing : (s : Text) → all is_digit s ≡ true → all is_digit (strip_trailing s) ≡ true
unfolding strip_trailing
all-strip_trailing [] h = refl
all-strip_trailing (c ∷ s) h = kept (strip_trailing s) (all-strip_trailing s (ground arith))
  where
    kept : (t : Text) → all is_digit t ≡ true → all is_digit (keep_unless_zero c t) ≡ true
    kept t is = all-keep c t (ground arith) is
