-- ===== src/Session/TypedData.antt =====
-- session-keys/typed-data.ts: `TransferWithAuthorization` requests.
--
-- A request is its snapshot. Keccak is a third party's; its input is bytes.
pub mod Transfer
use connect_lib.Base.{
  ℕ, zero, suc, ◌+◌, ◌-◌, ◌*◌, ◌/◌, ◌%◌, ◌^◌, Bool, true, false, not, ◌&&◌, ◌||◌, Option, none,
  some, List, [], ◌∷◌, ◌++◌, leb, ltb, ◌==◌, if◌then◌else◌, length, drop, all, replicate,
}
use connect_lib.Base.Bytes.{Bytes}
use connect_lib.Base.Hex.{is_hex_of, hexadecimal, hex_bytes, bytes_of_hex}
use connect_lib.Base.Text.{Text, codes, text_eq, to_lower_case}
use connect_lib.Units.{is_digit, value_from, pad_start}
use connect_lib.Authorization.Names.{is_safe, is_evm_address, is_positive_decimal}
use connect_lib.Session.Types.{SessionKeyTransaction}

-- `is_transfer` is whether the primary type is `TransferWithAuthorization`.
pub record TypedDataRequest : Type 0 where
  pub is_transfer : Bool
  pub name : Text
  pub version : Text
  pub chain_id : ℕ
  pub verifying_contract : Text
  pub from : Text
  pub to : Text
  pub value : Text
  pub valid_after : Text
  pub valid_before : Text
  pub nonce : Text

-- `/^(?:0|[1-9][0-9]*)$/`
unfoldable pub is_decimal : Text → Bool
is_decimal t = text_eq t (codes "0") || is_positive_decimal t

unfoldable pub is_uint256 : Text → Bool
is_uint256 t = is_decimal t && ltb (value_from 0 t) (2 ^ 256)

-- `validateTypedDataRequest(request) === null`
unfoldable pub is_valid_request : TypedDataRequest → Bool
is_valid_request r =
    r.is_transfer
    && (is_safe r.chain_id
        && (ltb 0 r.chain_id
            && (is_evm_address r.verifying_contract
                && (is_evm_address r.from
                    && (is_evm_address r.to
                        && (is_uint256 r.value
                            && (is_uint256 r.valid_after
                                && (is_uint256 r.valid_before && is_hex_of 64 r.nonce))))))))

-- `typedDataAsTransaction`
unfoldable pub typed_data_as_transaction : TypedDataRequest → SessionKeyTransaction
typed_data_as_transaction r = record {
  to = r.verifying_contract;
  chain_id = some r.chain_id;
  value = codes "0";
  data_field =
      codes "0xa9059cbb"
      ++ (pad_start (to_lower_case (drop 2 r.to)) 64
          ++ pad_start (hexadecimal (value_from 0 r.value)) 64);
  gas = [];
}

-- The bytes of a code point, in UTF-8.
unfoldable pub encode_point : ℕ → Bytes
encode_point c =
    if ltb c 128
    then c ∷ []
    else if ltb c 2048
    then (192 + c / 64) ∷ (128 + c % 64) ∷ []
    else if ltb c 65536
    then (224 + c / 4096) ∷ (128 + (c / 64) % 64) ∷ (128 + c % 64) ∷ []
    else (240 + c / 262144) ∷ (128 + (c / 4096) % 64) ∷ (128 + (c / 64) % 64) ∷ (128 + c % 64) ∷ []

abbrev pub is_high : ℕ → Bool
is_high c = leb 55296 c && leb c 56319

abbrev pub is_low : ℕ → Bool
is_low c = leb 56320 c && leb c 57343

-- `TextEncoder`, with a high surrogate that waits; a surrogate alone becomes the replacement.
unfoldable pub encode_after : Option ℕ → Text → Bytes
encode_after none [] = []
encode_after (some high) [] = encode_point 65533
encode_after none (c ∷ cs) = elim (is_high c) [
  | true ↦ encode_after (some c) cs
  | false ↦ encode_point (if is_low c then 65533 else c) ++ encode_after none cs
]
encode_after (some high) (c ∷ cs) = elim (is_low c) [
  | true ↦ encode_point (65536 + (high - 55296) * 1024 + (c - 56320)) ++ encode_after none cs
  | false ↦ encode_point 65533 ++ elim (is_high c) [
    | true ↦ encode_after (some c) cs
    | false ↦ encode_point c ++ encode_after none cs
  ]
]

unfoldable pub utf8 : Text → Bytes
utf8 t = encode_after none t

-- `word`, of a text of at most 64 hexadecimal digits after "0x"
unfoldable pub word : Text → Bytes
word hex = let bytes : Bytes = bytes_of_hex (drop 2 hex) in replicate (32 - length bytes) 0 ++ bytes

-- `uint`
unfoldable pub uint : ℕ → Bytes
uint n = word (codes "0x" ++ pad_start (hexadecimal n) 64)

module _ (keccak : Bytes → Bytes) where
  unfoldable pub domain_separator : TypedDataRequest → Bytes
  domain_separator r = keccak (
      keccak (
        utf8 (
          codes
            "EIP712Domain(string name,string version,uint256 chainId,address verifyingContract)"))
      ++ (keccak (utf8 r.name)
          ++ (keccak (utf8 r.version) ++ (uint r.chain_id ++ word r.verifying_contract))))

  unfoldable pub struct_hash : TypedDataRequest → Bytes
  struct_hash r = keccak (
      keccak (
        utf8 (
          codes "TransferWithAuthorization(address from,address to,uint256 value,"
          ++ codes "uint256 validAfter,uint256 validBefore,bytes32 nonce)"))
      ++ (word r.from
          ++ (word r.to
              ++ (uint (value_from 0 r.value)
                  ++ (uint (value_from 0 r.valid_after)
                      ++ (uint (value_from 0 r.valid_before) ++ bytes_of_hex (drop 2 r.nonce)))))))

  -- `typedDataDigest`
  unfoldable pub typed_data_digest : TypedDataRequest → Text
  typed_data_digest r =
      codes "0x" ++ hex_bytes (keccak (25 ∷ 1 ∷ (domain_separator r ++ struct_hash r)))
