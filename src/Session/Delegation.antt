-- ===== src/Session/Delegation.antt =====
-- SessionKeyManager.ts and delegation-framework.ts: the redemption of the delegation of an EIP-7702
-- key. Keccak is an argument; the signed delegation is the hex text that is stored with the key.
use connect_lib.Base.{
  ℕ, ◌+◌, ◌*◌, ◌/◌, ◌-◌, ◌%◌, ◌^◌, ◌++◌, Bool, false, not, ◌&&◌, ◌||◌, Option, none, some, List, [],
  ◌∷◌, ◌==◌, all, drop, take, length, map, replicate, ltb,
}
use connect_lib.Base.Bytes.{Bytes}
use connect_lib.Base.Hex.{is_hex, is_hex_of, hexadecimal, hex_bytes, bytes_of_hex}
use connect_lib.Base.Sets.{has}
use connect_lib.Base.Text.{Text, codes, text_eq, to_lower_case}
use connect_lib.Units.{pad_start}
use connect_lib.Session.Types.{
  SessionKeyRail, session_rail_eq, Mode, same_mode, SessionKeyTransaction, StoredSessionKey,
  SessionKeyError, Checked, passed, thrown, ◌>>=◌, ◌>>◌, refuse_when,
}
use connect_lib.Session.Number.{Parsed, natural, big_int, same_address, is_filled}
use connect_lib.Session.Store.{get}
use connect_lib.Session.Sign.{Vault, status_error, marked, sign_stored}
use connect_lib.Session.TypedData.{utf8}

pub record FrameworkExecution : Type 0 where
  pub target : Text
  pub value : ℕ
  pub call_data : Text

-- `DELEGATION_FRAMEWORK.delegationManager`
abbrev pub delegation_manager : Text
delegation_manager = codes "0xdb9B1e94B5b69Df7e401DDbedE43491141047dB3"

-- `/^0x([0-9a-fA-F]{2})*$/`
unfoldable pub is_hex_bytes : Text → Bool
is_hex_bytes t = text_eq (take 2 t) (codes "0x") && all is_hex (drop 2 t) && length t % 2 == 0

-- `word` of a value that is a uint256, and its bytes (`w`)
unfoldable pub value_word : ℕ → Text
value_word value = pad_start (hexadecimal value) 64

unfoldable pub word_bytes : ℕ → Bytes
word_bytes value = bytes_of_hex (value_word value)

-- `bytesOf`, which throws where the text is not of whole bytes
unfoldable pub bytes_of : Text → Checked SessionKeyError Bytes
bytes_of hex = do
  refuse_when (not (all is_hex (drop 2 hex) && length (drop 2 hex) % 2 == 0))
      SessionKeyError.invalid_input
  passed (bytes_of_hex (drop 2 hex))

unfoldable pub pad_right : Bytes → Bytes
pad_right bytes = bytes ++ replicate ((length bytes + 31) / 32 * 32 - length bytes) 0

-- `abiBytes`, of the bytes
unfoldable pub abi_bytes : Bytes → Bytes
abi_bytes data_bytes = word_bytes (length data_bytes) ++ pad_right data_bytes

pub data Member : Type 0 where
  static dynamic : Bytes → Member

unfoldable pub tuple_heads : ℕ → List Member → Bytes
tuple_heads offset [] = []
tuple_heads offset (static bytes ∷ ms) = bytes ++ tuple_heads offset ms
tuple_heads offset (dynamic bytes ∷ ms) =
    word_bytes offset ++ tuple_heads (offset + length bytes) ms

unfoldable pub tuple_tails : List Member → Bytes
tuple_tails [] = []
tuple_tails (static bytes ∷ ms) = tuple_tails ms
tuple_tails (dynamic bytes ∷ ms) = bytes ++ tuple_tails ms

unfoldable pub abi_tuple : List Member → Bytes
abi_tuple ms = tuple_heads (length ms * 32) ms ++ tuple_tails ms

unfoldable pub abi_dynamic_array : List Bytes → Bytes
abi_dynamic_array elements = word_bytes (length elements) ++ abi_tuple (map dynamic elements)

-- `encodeSingleExecution`
unfoldable pub encode_single_execution : FrameworkExecution → Checked SessionKeyError Text
encode_single_execution e = do
  refuse_when (not (is_hex_of 40 e.target)) SessionKeyError.invalid_input
  refuse_when (not (is_hex_bytes e.call_data)) SessionKeyError.invalid_input
  refuse_when (not (ltb e.value (2 ^ 256))) SessionKeyError.invalid_input
  passed (
      codes "0x"
      ++ (to_lower_case (drop 2 e.target)
          ++ (value_word e.value ++ to_lower_case (drop 2 e.call_data))))

-- The call's transaction that the scope governs, with the gas of the outer one.
abbrev pub redemption_transaction :
    Option ℕ → SessionKeyTransaction → FrameworkExecution → SessionKeyTransaction
redemption_transaction chain_id outer e = record {
  to = e.target;
  value = codes "0x" ++ hexadecimal e.value;
  data_field = e.call_data;
  chain_id = chain_id;
  gas = outer.gas;
}

unfoldable pub is_zero : Parsed → Bool
is_zero (natural n) = n == 0
is_zero _ = false

unfoldable pub is_chain : Option ℕ → ℕ → Bool
is_chain none chain_id = false
is_chain (some c) chain_id = c == chain_id

-- The chain of the key's delegation, where it has one.
unfoldable pub delegation_chain : StoredSessionKey → Checked SessionKeyError ℕ
delegation_chain k = elim k.authorization.delegation_chain_id [
  | none ↦ thrown SessionKeyError.invalid_input
  | some chain_id ↦ passed chain_id
]

module _ (keccak : Bytes → Bytes) where
  -- `encodeRedeemDelegationsWithContext`
  unfoldable pub encode_redeem_delegations : Text → Text → Checked SessionKeyError Text
  encode_redeem_delegations context execution = bytes_of context >>= λ context_bytes.
      bytes_of execution >>= λ execution_bytes. passed (
        codes "0x"
        ++ hex_bytes (
            take 4 (keccak (utf8 (codes "redeemDelegations(bytes[],bytes32[],bytes[])")))
            ++ abi_tuple (
                dynamic (abi_dynamic_array (abi_bytes context_bytes ∷ []))
                ∷ dynamic (word_bytes 1 ++ replicate 32 0)
                ∷ dynamic (abi_dynamic_array (abi_bytes execution_bytes ∷ []))
                ∷ [])))

  -- `redemptionFor`
  unfoldable pub redemption_for :
      StoredSessionKey → FrameworkExecution → Checked SessionKeyError (ℕ × Text)
  redemption_for k e = do
    refuse_when
        (not (same_mode k.scope.mode Mode.eip7702)
          || (not (same_mode k.authorization.type Mode.eip7702)
              || not (is_filled k.authorization.authorization)))
        SessionKeyError.invalid_input
    delegation_chain k >>= λ chain_id. encode_single_execution e >>= λ execution.
        encode_redeem_delegations k.authorization.authorization execution >>= λ call.
        passed (chain_id, call)

  -- The tests of `signDelegationRedemption` past the status, and the chain of the delegation.
  unfoldable pub check_redemption :
      StoredSessionKey → SessionKeyTransaction → FrameworkExecution → Checked SessionKeyError ℕ
  check_redemption k outer e = do
    refuse_when (is_filled k.scope.rails && not (has SessionKeyRail.transfer k.scope.rails))
        SessionKeyError.rails_refused
    (chain_id, call) ← redemption_for k e
    refuse_when
        (not (is_chain outer.chain_id chain_id)
          || (not (same_address outer.to delegation_manager)
              || (not (is_zero (big_int outer.value)) || not (same_address outer.data_field call))))
        SessionKeyError.redemption_refused
    passed chain_id

  module _ (x : Vault) where
    unfoldable pub redeem :
        StoredSessionKey
        → Text
        → SessionKeyTransaction
        → FrameworkExecution
        → ℕ
        → List StoredSessionKey
        → Checked SessionKeyError Text × List StoredSessionKey
    redeem k digest outer e now_ms keys = elim (check_redemption k outer e) [
      | thrown error ↦ (thrown error, keys)
      | passed chain_id ↦
          sign_stored x k digest (redemption_transaction (some chain_id) outer e) now_ms keys
    ]

    -- `signDelegationRedemption`
    unfoldable pub sign_delegation_redemption :
        Text
        → Text
        → SessionKeyTransaction
        → FrameworkExecution
        → ℕ
        → List StoredSessionKey
        → Checked SessionKeyError Text × List StoredSessionKey
    sign_delegation_redemption id digest outer e now_ms keys = elim (get id keys) [
      | none ↦ (thrown SessionKeyError.not_found, keys)
      | some k ↦ elim (status_error k (now_ms / 1000)) [
        | some error ↦ (thrown error, marked k (now_ms / 1000) keys)
        | none ↦ redeem k digest outer e now_ms keys
      ]
    ]
