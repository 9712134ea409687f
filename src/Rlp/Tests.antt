-- ===== src/Rlp/Tests.antt =====
-- A list of a short string, a single byte, an empty quantity and a string of 60 bytes.
use connect_lib.Base.{◌≡◌, refl, some, [], ◌∷◌, List, replicate, map, arith}
use connect_lib.Base.Bytes.{Bytes}
use connect_lib.Base.Hex.{hexadecimal, hex_digits, hex_digit, bytes_of_hex, hex_value}
use connect_lib.Base.Text.{codes}
use connect_lib.Units.{strip_leading}
use connect_lib.Voucher.Address.{drop_prefix}
use connect_lib.Rlp.{
  rlp_bytes, encode_rlp_list, to_rlp_quantity, to_rlp_bytes, hex_to_bytes, map_bytes,
  without_prefix, pad_even, with_header, length_bytes, concat_bytes,
}
use connect_lib.Rlp.Decoded.{decode_list, decode_list-encode_rlp_list}

abbrev items : List Bytes
items = (1 ∷ 200 ∷ []) ∷ (7 ∷ []) ∷ [] ∷ replicate 60 255 ∷ []

quantity : to_rlp_quantity (codes "0x00400") ≡ some (130 ∷ 4 ∷ 0 ∷ [])
unfolding to_rlp_quantity to_rlp_bytes hex_to_bytes map_bytes without_prefix pad_even with_header
    rlp_bytes strip_leading drop_prefix bytes_of_hex hex_value
quantity = refl

long : encode_rlp_list (rlp_bytes (replicate 60 255) ∷ []) ≡ 248 ∷ 62 ∷ 184 ∷ 60 ∷ replicate 60 255
unfolding encode_rlp_list rlp_bytes with_header length_bytes concat_bytes pad_even hexadecimal
    hex_digits hex_digit bytes_of_hex hex_value
long = refl

decode_list-encode_rlp_list_example :
    decode_list (encode_rlp_list (map rlp_bytes items)) ≡ some items
unfolding concat_bytes rlp_bytes with_header length_bytes pad_even hexadecimal hex_digits hex_digit
    bytes_of_hex hex_value
decode_list-encode_rlp_list_example =
    decode_list-encode_rlp_list items (omega arith, (omega arith, (omega arith, (omega arith, tt))))
      (omega arith)
