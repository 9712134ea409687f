-- ===== src/Voucher/Address.antt =====
-- address-validation.ts: the shape of a Solana address, and the CAIP-2 form of a cluster.
use connect_lib.Base.{
  ℕ, zero, suc, ◌+◌, ◌*◌, ◌/◌, Bool, true, false, ◌&&◌, Option, none, some, [], ◌∷◌, leb, ◌==◌,
  if◌then◌else◌, length, all, is_some,
}
use connect_lib.Base.Text.{Text, codes}

abbrev pub solana_base58 : Text
solana_base58 = codes "123456789ABCDEFGHJKLMNPQRSTUVWXYZabcdefghijkmnopqrstuvwxyz"

-- `text.indexOf(char)`; `none` for -1
unfoldable pub index_of : ℕ → Text → Option ℕ
index_of c [] = none
index_of c (d ∷ ds) = elim (c == d) [
  | true ↦ some 0
  | false ↦ elim (index_of c ds) [ none ↦ none | some i ↦ some (i + 1) ]
]

-- `[1-9A-HJ-NP-Za-km-z]`, the characters of the alphabet
unfoldable pub is_base58 : ℕ → Bool
unfolding index_of
is_base58 c = is_some (index_of c solana_base58)

unfoldable pub digit : ℕ → ℕ
digit c = elim (index_of c solana_base58) [ none ↦ 0 | some i ↦ i ]

-- the loop that reads the digits, on characters of the alphabet
unfoldable pub decode_from : ℕ → Text → ℕ
decode_from value [] = value
decode_from value (c ∷ cs) = decode_from (value * 58 + digit c) cs

-- How many bytes a number takes; the fuel bounds the answer.
unfoldable pub byte_count : ℕ → ℕ → ℕ
byte_count zero n = 0
byte_count (suc f) n = let rest = byte_count f (n / 256) in if n == 0 then 0 else suc rest

-- `address.match(/^1*/)[0].length`
unfoldable pub leading_ones : Text → ℕ
leading_ones [] = 0
leading_ones (c ∷ cs) = if c == b'1' then suc (leading_ones cs) else 0

-- `isValidSolanaAddress`; a text of `n` digits has a value of at most `n` bytes.
unfoldable pub is_valid_solana_address : Text → Bool
unfolding is_base58 decode_from digit byte_count leading_ones
is_valid_solana_address a =
    all is_base58 a
    && leb 32 (length a)
    && leb (length a) 44
    && leading_ones a + byte_count (length a) (decode_from 0 a) == 32

unfoldable pub drop_prefix : Text → Text → Option Text
drop_prefix [] t = some t
drop_prefix (c ∷ cs) [] = none
drop_prefix (c ∷ cs) (d ∷ t) = if c == d then drop_prefix cs t else none

-- `/^solana:[1-9A-HJ-NP-Za-km-z]{32}$/`
unfoldable pub is_solana_caip2 : Text → Bool
unfolding drop_prefix is_base58
is_solana_caip2 t = elim (drop_prefix (codes "solana:") t) [
  | none ↦ false
  | some reference ↦ length reference == 32 && all is_base58 reference
]
