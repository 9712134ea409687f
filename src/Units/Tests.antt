-- ===== src/Units/Tests.antt =====
-- Amounts of a token with six decimals.
use connect_lib.Base.{◌≡◌, refl, none, some, arith}
use connect_lib.Base.Decimal.{decimal, digits}
use connect_lib.Base.Text.{Text, codes}
use connect_lib.Units.{
  is_digit, is_amount, before_dot, after_dot, strip_leading, or_zero, keep_unless_zero,
  strip_trailing, pad_end, pad_start, value_from, notation, parse_units, format_units,
}
use connect_lib.Units.Notation.{parse_units-format_units}

formatted : format_units 1500000 6 ≡ some (codes "1.5")
unfolding format_units decimal digits pad_start strip_leading or_zero strip_trailing
    keep_unless_zero notation
formatted = refl

parsed : parse_units (codes "007.25") 6 ≡ some 7250000
unfolding parse_units is_amount is_digit before_dot after_dot strip_leading or_zero pad_end
    value_from
parsed = refl

two_dots : parse_units (codes "1.2.3") 6 ≡ none
unfolding parse_units is_amount is_digit
two_dots = refl

parse_units-format_units_example :
    (text : Text) × (format_units 1500000 6 ≡ some text) × (parse_units text 6 ≡ some 1500000)
parse_units-format_units_example = parse_units-format_units 1500000 6 (omega arith)
