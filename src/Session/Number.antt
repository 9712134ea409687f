-- ===== src/Session/Number.antt =====
-- The texts that `BigInt` reads, and addresses compared without regard to case.
use connect_lib.Base.{
  ℕ, suc, ◌+◌, ◌-◌, ◌*◌, Bool, true, false, not, ◌&&◌, ◌||◌, Option, List, [], ◌∷◌, leb, ◌==◌,
  if◌then◌else◌, all, find?, any,
}
use connect_lib.Base.Dict.{Dict}
use connect_lib.Base.Hex.{is_hex, hex_from}
use connect_lib.Base.Text.{Text, text_eq, to_lower_case}
use connect_lib.Units.{is_digit, value_from}

-- The white space and line ends of ECMAScript.
unfoldable pub is_space : ℕ → Bool
is_space c =
    leb 9 c && leb c 13
    || (c == 32
        || (c == 160
            || (c == 5760
                || (leb 8192 c && leb c 8202
                    || (c == 8232
                        || (c == 8233
                            || (c == 8239 || (c == 8287 || (c == 12288 || c == 65279)))))))))

unfoldable pub trim_start : Text → Text
trim_start [] = []
trim_start (c ∷ cs) = if is_space c then trim_start cs else c ∷ cs

unfoldable pub trim_end : Text → Text
trim_end [] = []
trim_end (c ∷ cs) = if all is_space (c ∷ cs) then [] else c ∷ trim_end cs

-- `BigInt` of a text: a syntax error, a number below zero, or a natural number.
pub data Parsed : Type 0 where
  malformed below_zero : Parsed
  natural : ℕ → Parsed

unfoldable pub radix_from : ℕ → ℕ → Text → ℕ
radix_from base acc [] = acc
radix_from base acc (c ∷ cs) = radix_from base (acc * base + (c - b'0')) cs

abbrev pub is_below : ℕ → ℕ → Bool
is_below top c = leb b'0' c && leb c top

abbrev pub is_filled {ℓ} : {A : Type ℓ} → List A → Bool
is_filled [] = false
is_filled (_ ∷ _) = true

unfoldable pub big_int_decimal : Text → Parsed
big_int_decimal t = if is_filled t && all is_digit t then natural (value_from 0 t) else malformed

abbrev pub negated : Parsed → Parsed
negated (natural ℕ.zero) = natural 0
negated (natural (suc n)) = below_zero
negated _ = malformed

-- The two letters after which the digits of another base stand.
unfoldable pub big_int_based : ℕ → Text → Parsed
big_int_based letter digits =
    if not (is_filled digits)
    then malformed
    else if (letter == b'x' || letter == b'X') && all is_hex digits
    then natural (hex_from 0 digits)
    else if (letter == b'o' || letter == b'O') && all (is_below b'7') digits
    then natural (radix_from 8 0 digits)
    else if (letter == b'b' || letter == b'B') && all (is_below b'1') digits
    then natural (radix_from 2 0 digits)
    else malformed

unfoldable pub big_int_trimmed : Text → Parsed
big_int_trimmed [] = natural 0
big_int_trimmed (c ∷ []) = big_int_decimal (c ∷ [])
big_int_trimmed (c ∷ d ∷ t) =
    if c == b'-'
    then negated (big_int_decimal (d ∷ t))
    else if c == b'+'
    then big_int_decimal (d ∷ t)
    else if c == b'0' && not (is_digit d)
    then big_int_based d t
    else big_int_decimal (c ∷ d ∷ t)

unfoldable pub big_int : Text → Parsed
big_int t = big_int_trimmed (trim_end (trim_start t))

-- `tx.value ? BigInt(tx.value) : 0n`
unfoldable pub amount_field : Text → Parsed
amount_field [] = natural 0
amount_field (c ∷ cs) = big_int (c ∷ cs)

abbrev pub amount_or_zero : Parsed → ℕ
amount_or_zero (natural n) = n
amount_or_zero _ = 0

-- `left.toLowerCase() === right.toLowerCase()`
abbrev pub same_address : Text → Text → Bool
same_address left right = text_eq (to_lower_case left) (to_lower_case right)

-- `Object.entries(record).find(([key]) => key.toLowerCase() === address.toLowerCase())`
unfoldable pub entry_of : {A : Type 0} → Text → Dict Text A → Option (Text × A)
entry_of {A} address entries = find? (λ (e : Text × A). same_address e.0 address) entries

-- `list.some((item) => item.toLowerCase() === address.toLowerCase())`
unfoldable pub lists : Text → List Text → Bool
lists address list = any (λ item. same_address item address) list
