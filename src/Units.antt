-- ===== src/Units.antt =====
-- core/src/token/units.ts: token amounts in decimal notation, and in the smallest unit.
--
-- An amount is a natural number; the text that `parseUnits` takes is the trimmed one.
pub mod Digits
pub mod Notation
mod Tests
use connect_lib.Base.{
  ℕ, zero, suc, ◌+◌, ◌-◌, ◌*◌, Bool, true, false, not, ◌&&◌, ◌||◌, Option, none, some, List, [],
  ◌∷◌, ◌++◌, leb, ltb, ◌==◌, if◌then◌else◌, length, take, drop, replicate,
}
use connect_lib.Base.Decimal.{decimal}
use connect_lib.Base.Text.{Text, codes, text_eq}

abbrev pub max_decimals : ℕ
max_decimals = 255

unfoldable pub is_digit : ℕ → Bool
is_digit c = leb b'0' c && leb c b'9'

-- The loop over the characters: digits, and one dot at most; `seen` says that one was there.
unfoldable pub is_amount : Bool → Text → Bool
is_amount seen [] = true
is_amount seen (c ∷ cs) = elim (c == b'.') [
  | true ↦ not seen && is_amount true cs
  | false ↦ is_digit c && is_amount seen cs
]

-- `str.slice(0, dotIndex)`, or all of it
unfoldable pub before_dot : Text → Text
before_dot [] = []
before_dot (c ∷ cs) = elim (c == b'.') [ true ↦ [] | false ↦ c ∷ before_dot cs ]

-- `str.slice(dotIndex + 1)`, or nothing
unfoldable pub after_dot : Text → Text
after_dot [] = []
after_dot (c ∷ cs) = elim (c == b'.') [ true ↦ cs | false ↦ after_dot cs ]

-- `replace(/^0+/, "")`
unfoldable pub strip_leading : Text → Text
strip_leading [] = []
strip_leading (c ∷ cs) = elim (c == b'0') [ true ↦ strip_leading cs | false ↦ c ∷ cs ]

-- `|| "0"`
unfoldable pub or_zero : Text → Text
or_zero [] = b'0' ∷ []
or_zero (c ∷ cs) = c ∷ cs

-- a character before a tail that is stripped already
unfoldable pub keep_unless_zero : ℕ → Text → Text
keep_unless_zero c [] = if c == b'0' then [] else c ∷ []
keep_unless_zero c (d ∷ ds) = c ∷ d ∷ ds

-- `while (fractionalPart.endsWith("0")) fractionalPart = fractionalPart.slice(0, -1)`
unfoldable pub strip_trailing : Text → Text
strip_trailing [] = []
strip_trailing (c ∷ cs) = keep_unless_zero c (strip_trailing cs)

unfoldable pub pad_end : Text → ℕ → Text
pad_end s n = s ++ replicate (n - length s) b'0'

unfoldable pub pad_start : Text → ℕ → Text
pad_start s n = replicate (n - length s) b'0' ++ s

-- `BigInt` of a text of digits
unfoldable pub value_from : ℕ → Text → ℕ
value_from acc [] = acc
value_from acc (c ∷ cs) = value_from (acc * 10 + (c - b'0')) cs

-- `parseUnits` of a text; `none` where it throws
unfoldable pub parse_units : Text → ℕ → Option ℕ
parse_units str decimals =
    if ltb max_decimals decimals
    then none
    else if text_eq str [] || text_eq str (codes ".")
    then none
    else if not (is_amount false str)
    then none
    else if ltb decimals (length (after_dot str))
    then none
    else some (
        value_from 0 (or_zero (strip_leading (before_dot str)) ++ pad_end (after_dot str) decimals))

-- The two parts of `formatUnits` joined.
unfoldable pub notation : Text → Text → Text
notation integer [] = integer
notation integer (c ∷ cs) = integer ++ b'.' ∷ c ∷ cs

-- `formatUnits`; `none` where it throws
unfoldable pub format_units : ℕ → ℕ → Option Text
format_units amount decimals =
    if ltb max_decimals decimals
    then none
    else (let padded : Text = pad_start (decimal amount) (decimals + 1) in
        let dot : ℕ = length padded - decimals in
        some
          (notation (or_zero (strip_leading (take dot padded))) (strip_trailing (drop dot padded))))
