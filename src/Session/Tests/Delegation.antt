-- ===== src/Session/Tests/Delegation.antt =====
-- The redemption of a delegation, at concrete inputs.
use connect_lib.Base.{◌≡◌, refl, none, some, [], ◌∷◌, ◌++◌, replicate}
use connect_lib.Base.Text.{Text, codes, to_lower_case, lower_unit}
use connect_lib.Session.Types.{
  SessionKeyRail, Mode, SessionKeyTransaction, StoredSessionKey, passed, thrown, SessionKeyError,
}
use connect_lib.Session.Delegation.{
  FrameworkExecution, delegation_manager, encode_redeem_delegations, encode_single_execution,
  check_redemption, is_hex_bytes, value_word, bytes_of, abi_tuple, tuple_heads, word_bytes,
  abi_dynamic_array, tuple_tails, abi_bytes, pad_right, redemption_for, delegation_chain, is_chain,
  is_zero,
}
use connect_lib.Base.Hex.{
  is_hex_of, hex_bytes, hex_byte, hex_digit, hexadecimal, hex_digits, hex_value, bytes_of_hex,
  hex_from,
}
use connect_lib.Base.Sets.{has}
use connect_lib.Units.{pad_start, is_digit, value_from}
use connect_lib.Session.Number.{
  big_int, big_int_based, big_int_decimal, big_int_trimmed, is_space, radix_from, trim_end,
  trim_start,
}
use connect_lib.Session.TypedData.{encode_after, encode_point, utf8}
use connect_lib.Session.Tests.Inputs.{key, toy_hash, payee}

abbrev execution : FrameworkExecution
execution = record { target = payee; value = 5; call_data = codes "0x" }

abbrev packed : Text
packed = codes "0x" ++ (replicate 40 b'b' ++ (replicate 63 b'0' ++ codes "5"))

packs : encode_single_execution execution ≡ passed packed
unfolding encode_single_execution is_hex_of is_hex_bytes to_lower_case value_word pad_start
    hexadecimal hex_digits hex_digit
packs = refl

-- 32 bytes of which the last is given
abbrev small : Text → Text
small digits = replicate 62 b'0' ++ digits

-- Three heads; the context of two bytes, the default mode, and the execution of 52 bytes, each of
-- them the only element of an array.
abbrev calldata : Text
calldata =
    codes "0x07070707"
    ++ (small (codes "60")
        ++ (small (codes "e0")
            ++ (replicate 60 b'0'
                ++ (codes "0120"
                    ++ (small (codes "01")
                        ++ (small (codes "20")
                            ++ (small (codes "02")
                                ++ (codes "0102"
                                    ++ (replicate 60 b'0'
                                        ++ (small (codes "01")
                                            ++ (small (codes "00")
                                                ++ (small (codes "01")
                                                    ++ (small (codes "20")
                                                        ++ (small (codes "34")
                                                            ++ (replicate 40 b'b'
                                                            ++ (replicate 63 b'0'
                                                            ++ (codes "5"
                                                            ++ replicate 24 b'0')))))))))))))))))

encodes : encode_redeem_delegations toy_hash (codes "0x0102") packed ≡ passed calldata
unfolding encode_redeem_delegations bytes_of hex_bytes hex_byte hex_digit abi_tuple tuple_heads
    word_bytes bytes_of_hex value_word pad_start hexadecimal hex_digits hex_value abi_dynamic_array
    tuple_tails abi_bytes pad_right
encodes = refl

abbrev delegated : StoredSessionKey
delegated = record key {
  scope = record key.scope { mode = Mode.eip7702; rails = SessionKeyRail.transfer ∷ [] };
  authorization = record key.authorization {
    authorization = codes "0x0102";
    type = Mode.eip7702;
    delegation_chain_id = some 1;
  };
}

abbrev outer : SessionKeyTransaction
outer = record {
  to = delegation_manager;
  value = codes "0x0";
  data_field = calldata;
  chain_id = some 1;
  gas = [];
}

passes : check_redemption toy_hash delegated outer execution ≡ passed 1
unfolding check_redemption has redemption_for delegation_chain is_chain is_zero
    encode_single_execution is_hex_of is_hex_bytes to_lower_case value_word pad_start hexadecimal
    hex_digits hex_digit encode_redeem_delegations bytes_of hex_bytes hex_byte abi_tuple tuple_heads
    word_bytes bytes_of_hex hex_value abi_dynamic_array tuple_tails abi_bytes pad_right big_int
    hex_from lower_unit big_int_based big_int_decimal big_int_trimmed is_space radix_from trim_end
    trim_start is_digit value_from encode_after encode_point utf8
passes = refl

refuses :
    check_redemption toy_hash delegated (record outer { chain_id = none }) execution
    ≡ thrown SessionKeyError.redemption_refused
unfolding check_redemption has redemption_for delegation_chain is_chain is_zero
    encode_single_execution is_hex_of is_hex_bytes to_lower_case value_word pad_start hexadecimal
    hex_digits hex_digit encode_redeem_delegations bytes_of hex_bytes hex_byte abi_tuple tuple_heads
    word_bytes bytes_of_hex hex_value abi_dynamic_array tuple_tails abi_bytes pad_right
refuses = refl
