-- ===== src/Rlp.antt =====
-- wallet-engine/src/signers/rlp.ts: the RLP encoding of transactions.
pub mod Lengths
pub mod Decoded
mod Tests
use connect_lib.Base.{
  ℕ, ◌+◌, ◌%◌, Bool, true, false, not, ◌&&◌, Option, none, some, List, [], ◌∷◌, ◌++◌, ltb, ◌==◌,
  if◌then◌else◌, length, all, or_else,
}
use connect_lib.Base.Bytes.{Bytes}
use connect_lib.Base.Hex.{is_hex, hexadecimal, bytes_of_hex}
use connect_lib.Base.Text.{Text, codes}
use connect_lib.Units.{strip_leading}
use connect_lib.Voucher.Address.{drop_prefix}

-- `hex.startsWith("0x") ? hex.slice(2) : hex`
unfoldable pub without_prefix : Text → Text
without_prefix hex = or_else (drop_prefix (codes "0x") hex) hex

abbrev pub is_even : Text → Bool
is_even t = length t % 2 == 0

-- `hexToBytes`; `none` where it throws
unfoldable pub hex_to_bytes : Text → Option Bytes
hex_to_bytes hex =
    let raw : Text = without_prefix hex in
    if is_even raw && all is_hex raw then some (bytes_of_hex raw) else none

unfoldable pub pad_even : Text → Text
pad_even t = if is_even t then t else b'0' ∷ t

-- `lenBytes`
unfoldable pub length_bytes : ℕ → Bytes
length_bytes n = bytes_of_hex (pad_even (hexadecimal n))

-- The header of that offset, and what it is for.
unfoldable pub with_header : ℕ → Bytes → Bytes
with_header offset b =
    if ltb (length b) 56
    then (offset + length b) ∷ b
    else (let n : Bytes = length_bytes (length b) in (offset + 55 + length n) ∷ n ++ b)

abbrev pub is_single : Bytes → Bool
is_single (b ∷ []) = ltb b 128
is_single _ = false

-- `toRlpBytes`, of the bytes of its text
unfoldable pub rlp_bytes : Bytes → Bytes
rlp_bytes b = if is_single b then b else with_header 128 b

unfoldable pub map_bytes : Option Bytes → Option Bytes
map_bytes none = none
map_bytes (some b) = some (rlp_bytes b)

-- `toRlpBytes`
unfoldable pub to_rlp_bytes : Text → Option Bytes
to_rlp_bytes hex = map_bytes (hex_to_bytes hex)

-- `toRlpQuantity`
unfoldable pub to_rlp_quantity : Text → Option Bytes
to_rlp_quantity hex =
    let raw : Text = without_prefix hex in
    if all is_hex raw then to_rlp_bytes (codes "0x" ++ pad_even (strip_leading raw)) else none

unfoldable pub concat_bytes : List Bytes → Bytes
concat_bytes [] = []
concat_bytes (b ∷ bs) = b ++ concat_bytes bs

-- `encodeRlpList`
unfoldable pub encode_rlp_list : List Bytes → Bytes
encode_rlp_list items = with_header 192 (concat_bytes items)
