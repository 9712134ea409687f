-- ===== src/Units/Notation.antt =====
-- Parsing what was formatted.
use connect_lib.Base.{
  ℕ, ◌+◌, ◌-◌, ◌≤◌, ◌≡◌, refl, ap, ◌∙◌, sym, Bool, true, false, ◌||◌, some, [], ◌∷◌, ◌++◌, arith,
  ltb, ◌==◌, length, take, drop, all,
}
use connect_lib.Base.Decimal.{decimal}
use connect_lib.Base.Text.{Text, codes, text_eq}
use connect_lib.Units.{
  is_digit, is_amount, before_dot, after_dot, strip_leading, or_zero, strip_trailing, pad_end,
  pad_start, value_from, notation, parse_units, format_units, max_decimals,
}
use connect_lib.Units.Digits.{
  value_from-append, value_from-pad_start, value_from-strip_leading, pad_end-strip_trailing,
  length-strip_trailing, length-drop, take-drop, length-pad_start, all-take, all-drop,
  all-pad_start, all-strip_leading, all-strip_trailing,
}

not_dot : (c : ℕ) → is_digit c ≡ true → (c == b'.') ≡ false
unfolding is_digit
not_dot c h = ground arith

is_amount-digits : (seen : Bool) (s : Text) → all is_digit s ≡ true → is_amount seen s ≡ true
unfolding is_amount
is_amount-digits seen [] h = refl
is_amount-digits seen (c ∷ s) h =
    let apart : (c == b'.') ≡ false = not_dot c (ground arith) in
    rw (apart, is_amount) (ground (arith, is_amount-digits seen s))

-- How a notation of digits is read.
record IsRead (s integer fraction : Text) : Type 0 where
  amount : is_amount false s ≡ true
  before : before_dot s ≡ integer
  after : after_dot s ≡ fraction

plain-IsRead : (i : Text) → all is_digit i ≡ true → IsRead i i []
unfolding before_dot after_dot
plain-IsRead [] h = record { amount = is_amount-digits false [] refl; before = refl; after = refl }
plain-IsRead (c ∷ i) h =
    let apart : (c == b'.') ≡ false = not_dot c (ground arith) in
    let v = plain-IsRead i (ground arith) in
    record {
      amount = is_amount-digits false (c ∷ i) h;
      before = rw (apart, before_dot) (ap (λ l. c ∷ l) v.before);
      after = rw (apart, after_dot) v.after;
    }

dotted-IsRead :
    (i f : Text) → all is_digit i ≡ true → all is_digit f ≡ true → IsRead (i ++ b'.' ∷ f) i f
unfolding before_dot after_dot is_amount
dotted-IsRead [] f h k = record { amount = is_amount-digits true f k; before = refl; after = refl }
dotted-IsRead (c ∷ i) f h k =
    let apart : (c == b'.') ≡ false = not_dot c (ground arith) in
    let v = dotted-IsRead i f (ground arith) k in
    record {
      amount = rw (apart, is_amount) (ground (arith, v.amount));
      before = rw (apart, before_dot) (ap (λ l. c ∷ l) v.before);
      after = rw (apart, after_dot) v.after;
    }

notation-IsRead :
    (i f : Text) → all is_digit i ≡ true → all is_digit f ≡ true → IsRead (notation i f) i f
unfolding notation
notation-IsRead i [] h k = plain-IsRead i h
notation-IsRead i (c ∷ f) h k = dotted-IsRead i (c ∷ f) h k

-- A notation is neither empty nor a dot alone.
notation-text :
    (s f : Text)
    → all is_digit (or_zero s) ≡ true
    → (text_eq (notation (or_zero s) f) [] || text_eq (notation (or_zero s) f) (codes ".")) ≡ false
unfolding notation or_zero is_digit
notation-text [] [] h = refl
notation-text [] (d ∷ f) h = refl
notation-text (c ∷ s) [] h = ground (arith, not_dot c)
notation-text (c ∷ s) (d ∷ f) h = ground (arith, not_dot c)

parse_units-notation :
    (s f : Text) (decimals : ℕ)
    → decimals ≤ max_decimals
    → all is_digit (or_zero s) ≡ true
    → all is_digit f ≡ true
    → length f ≤ decimals
    → parse_units (notation (or_zero s) f) decimals
      ≡ some (value_from (value_from 0 (or_zero (strip_leading (or_zero s)))) (pad_end f decimals))
unfolding parse_units
parse_units-notation s f decimals small h k short =
    let v = notation-IsRead (or_zero s) f h k in
    let allowed : ltb max_decimals decimals ≡ false = ground arith in
    let fits : ltb decimals (length f) ≡ false = ground arith in
    rw
      (
        allowed,
        notation-text s f h,
        v.amount,
        v.after,
        v.before,
        fits,
        value_from-append 0 (or_zero (strip_leading (or_zero s))) (pad_end f decimals),
      )
      refl

-- The parts of the padded digits, stripped and padded again, are worth the amount.
value_lem :
    (amount decimals dot : ℕ)
    → let padded = pad_start (decimal amount) (decimals + 1) in
      length (drop dot padded) ≡ decimals
      → value_from
          (value_from 0 (or_zero (strip_leading (or_zero (strip_leading (take dot padded))))))
          (pad_end (strip_trailing (drop dot padded)) decimals)
        ≡ amount
value_lem amount decimals dot whole =
    let padded : Text = pad_start (decimal amount) (decimals + 1) in
    let part = take dot padded in
    let rest = drop dot padded in
    let filled : pad_end (strip_trailing rest) decimals ≡ rest =
      rw whole at (pad_end-strip_trailing rest) in
    rw
      (
        value_from-strip_leading (or_zero (strip_leading part)),
        value_from-strip_leading part,
        filled,
      )
      (sym (value_from-append 0 part rest)
        ∙ (ap (λ l. value_from 0 l) (take-drop dot padded)
            ∙ value_from-pad_start amount (decimals + 1)))

-- An amount of any size, formatted with any number of decimals up to 255, is a text that parses to
-- that amount.
pub parse_units-format_units :
    (amount decimals : ℕ)
    → decimals ≤ max_decimals
    → (text : Text) × (format_units amount decimals ≡ some text)
      × (parse_units text decimals ≡ some amount)
unfolding format_units
parse_units-format_units amount decimals small =
    let padded : Text = pad_start (decimal amount) (decimals + 1) in
    let dot : ℕ = length padded - decimals in
    let allowed : ltb max_decimals decimals ≡ false = ground arith in
    let digits = all-pad_start amount (decimals + 1) in
    let long : decimals + 1 ≤ length padded = length-pad_start (decimal amount) (decimals + 1) in
    let whole : length (drop dot padded) ≡ decimals = omega (arith, long, length-drop dot padded) in
    let integer : Text = strip_leading (take dot padded) in
    let fraction : Text = strip_trailing (drop dot padded) in
    let value : value_from (value_from 0 (or_zero (strip_leading (or_zero integer))))
          (pad_end fraction decimals)
        ≡ amount =
      value_lem amount decimals dot whole in
    (
      notation (or_zero integer) fraction,
      rw allowed refl,
      parse_units-notation integer fraction decimals small
            (all-strip_leading (take dot padded) (all-take dot padded digits))
            (all-strip_trailing (drop dot padded) (all-drop dot padded digits))
            (omega (arith, whole, length-strip_trailing (drop dot padded)))
          ∙ ap some value,
    )
