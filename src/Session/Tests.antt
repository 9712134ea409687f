-- ===== src/Session/Tests.antt =====
-- A key that may pay one payee in one token, and a payment that it signs.
mod Inputs
mod Delegation
use connect_lib.Session.Manager.Signs.{IsReady, check_session_scope-signs}
use connect_lib.Base.Dict.{lookup, insert}
use connect_lib.Authorization.Types.{is_distinct}
use connect_lib.Base.Sets.{has}
use connect_lib.Units.{is_digit, value_from, pad_start}
use connect_lib.Base.Hex.{
  is_hex_of, hex_bytes, hex_byte, hex_digit, hexadecimal, hex_digits, hex_value, hex_from,
}
use connect_lib.Authorization.Names.{is_evm_address, is_positive_decimal}
use connect_lib.Base.{
  ℕ, ◌/◌, ◌≡◌, refl, true, false, none, some, List, [], ◌∷◌, arith, replicate, ◌++◌,
}
use connect_lib.Base.Bytes.{Bytes}
use connect_lib.Base.Text.{Text, codes, to_lower_case, lower_unit}
use connect_lib.Session.Types.{
  SessionKeyRail, Mode, SessionKeyScope, SessionKeyTransaction, SessionKeyStatus, StoredSessionKey,
  OutOfScope, passed, thrown, SessionKeyError,
}
use connect_lib.Session.Number.{
  entry_of, amount_field, big_int, trim_start, trim_end, is_space, big_int_trimmed, big_int_decimal,
  lists, big_int_based,
}
use connect_lib.Session.Token.{
  decode_scoped_token_spend, selector, decode_entry, is_calldata, read_spend, layout_of,
  accumulated_token_spend,
}
use connect_lib.Session.Store.{
  get, increment_usage, change, save, add_usage, add_field, add_token, spend_key, add_period,
}
use connect_lib.Session.Sign.{
  Vault, usage_of, sign_stored, status_error, has_valid_rails, counted, sign_active,
  is_unauthorized, opened, signature_text, handed_out, check_session_scope, check_stored,
  refuse_raw_digest, sign_raw, sign_with_session_key,
}
use connect_lib.Session.Check.{
  check_scope_against_tx, amounts_of, check_amounts, check_target, check_chain, check_contract,
  is_native_recipient_transfer, is_forbidden, check_spending, check_token, period_usage_for,
  period_asset, period_spend, check_period, check_recipient, recipient_of, check_method,
  check_limits, is_malformed, spent_in, spend_amount,
}
use connect_lib.Session.Check.Accepts.{IsInScope, check_scope_against_tx-IsInScope}
use connect_lib.Session.Budget.{IsInBudget}
use connect_lib.Session.TypedData.{
  TypedDataRequest, is_valid_request, typed_data_as_transaction, is_uint256, is_decimal,
  typed_data_digest,
}
use connect_lib.Session.TypedData.Transfer.{decode_scoped_token_spend-typed_data}
use connect_lib.Session.Manager.{
  is_active, sign_typed_data_with_session_key, sign_typed_data, check_typed_data,
}
use connect_lib.Session.Manager.Outcome.{IsLeft}
use connect_lib.Session.Manager.Paid.{IsPaid, sign_typed_data_with_session_key-IsPaid}
use connect_lib.Session.Manager.Run.{SignCall, Call, answer, run}
use connect_lib.Session.Manager.Run.Within.{StaysWithin, run-StaysWithin}
use connect_lib.Session.Manager.Run.Revoked.{IsInactive, run-IsInactive}
use connect_lib.Session.Manager.Run.Refused.{answer-IsLeft}
use connect_lib.Session.Tests.Inputs.{
  vault, toy_hash, token, payee, own, address_of, scope, key, request, pay, paid_key, fresh, calls,
  revoked_key, transfer_key, transfer, windowed_key,
}

paid :
    answer vault toy_hash address_of 1000000 pay (key ∷ [])
    ≡ (passed (codes "0xab1b"), paid_key ∷ [])
unfolding answer sign_typed_data_with_session_key sign_typed_data check_typed_data is_valid_request
    is_evm_address is_hex_of is_uint256 is_decimal is_positive_decimal is_digit value_from has
    entry_of to_lower_case lower_unit sign_stored typed_data_digest typed_data_as_transaction
    hex_bytes hex_byte hex_digit pad_start hexadecimal hex_digits hex_value status_error
    has_valid_rails is_distinct counted sign_active is_unauthorized check_scope_against_tx
    amounts_of amount_field big_int trim_start trim_end is_space big_int_trimmed big_int_decimal
    check_amounts check_target check_chain check_contract is_native_recipient_transfer lists
    is_forbidden selector check_spending decode_scoped_token_spend decode_entry is_calldata
    read_spend layout_of hex_from check_token accumulated_token_spend period_usage_for period_asset
    lookup period_spend check_period check_recipient recipient_of check_method check_limits opened
    signature_text handed_out increment_usage change get save add_usage add_field add_token
    spend_key insert add_period
paid = refl

valid : is_valid_request request ≡ true
unfolding is_valid_request is_evm_address is_hex_of is_uint256 is_decimal is_positive_decimal
    is_digit value_from
valid = refl

decode_scoped_token_spend-typed_data_example :
    decode_scoped_token_spend scope (typed_data_as_transaction request)
    ≡ passed (
        some (record {
          token_address = token;
          amount = value_from 0 (codes "45");
          allowance = 100;
          recipient = codes "0x" ++ to_lower_case (replicate 40 b'b');
        }))
unfolding entry_of to_lower_case lower_unit
decode_scoped_token_spend-typed_data_example =
    decode_scoped_token_spend-typed_data scope request token 100 valid refl

checked :
    check_scope_against_tx
      (codes "0x095ea7b3" ∷ [])
      1000
      scope
      (typed_data_as_transaction request)
      (usage_of key)
    ≡ passed (record { value = some 10; gas = none; tx_count = some 1 })
unfolding answer sign_typed_data_with_session_key sign_typed_data check_typed_data is_valid_request
    is_evm_address is_hex_of is_uint256 is_decimal is_positive_decimal is_digit value_from has
    entry_of to_lower_case lower_unit sign_stored typed_data_digest typed_data_as_transaction
    hex_bytes hex_byte hex_digit pad_start hexadecimal hex_digits hex_value status_error
    has_valid_rails is_distinct counted sign_active is_unauthorized check_scope_against_tx
    amounts_of amount_field big_int trim_start trim_end is_space big_int_trimmed big_int_decimal
    check_amounts check_target check_chain check_contract is_native_recipient_transfer lists
    is_forbidden selector check_spending decode_scoped_token_spend decode_entry is_calldata
    read_spend layout_of hex_from check_token accumulated_token_spend period_usage_for period_asset
    lookup period_spend check_period check_recipient recipient_of check_method check_limits opened
    signature_text handed_out increment_usage change get save add_usage add_field add_token
    spend_key insert add_period
checked = refl

check_scope_against_tx-IsInScope_example :
    IsInScope
      (codes "0x095ea7b3" ∷ [])
      1000
      scope
      (typed_data_as_transaction request)
      (usage_of key)
check_scope_against_tx-IsInScope_example =
    check_scope_against_tx-IsInScope (codes "0x095ea7b3" ∷ []) 1000 scope
      (typed_data_as_transaction request) (usage_of key)
      (record { value = some 10; gas = none; tx_count = some 1 }) checked

typed_paid :
    sign_typed_data_with_session_key vault toy_hash address_of
      (codes "k")
      request
      SessionKeyRail.x402_exact
      1000000
      (key ∷ [])
    ≡ (passed (codes "0xab1b"), paid_key ∷ [])
unfolding answer
typed_paid = paid

sign_typed_data_with_session_key-IsPaid_example :
    (k : StoredSessionKey) × (get (codes "k") (key ∷ []) ≡ some k)
    × (is_active k.status ≡ true)
    × IsPaid address_of k request SessionKeyRail.x402_exact (1000000 / 1000)
sign_typed_data_with_session_key-IsPaid_example =
    sign_typed_data_with_session_key-IsPaid vault toy_hash address_of (codes "k") request
      SessionKeyRail.x402_exact 1000000 (key ∷ []) (paid_key ∷ []) (codes "0xab1b") typed_paid

-- The same payment again is more than the allowance.
refused :
    answer vault toy_hash address_of 1000000 pay (paid_key ∷ [])
    ≡ (thrown (SessionKeyError.scope_exceeded OutOfScope.over_allowance), paid_key ∷ [])
unfolding answer sign_typed_data_with_session_key sign_typed_data check_typed_data is_valid_request
    is_evm_address is_hex_of is_uint256 is_decimal is_positive_decimal is_digit value_from has
    entry_of to_lower_case lower_unit sign_stored typed_data_digest typed_data_as_transaction
    hex_bytes hex_byte hex_digit pad_start hexadecimal hex_digits hex_value status_error
    has_valid_rails is_distinct counted sign_active is_unauthorized check_scope_against_tx
    amounts_of amount_field big_int trim_start trim_end is_space big_int_trimmed big_int_decimal
    check_amounts check_target check_chain check_contract is_native_recipient_transfer lists
    is_forbidden selector check_spending decode_scoped_token_spend decode_entry is_calldata
    read_spend layout_of hex_from check_token accumulated_token_spend period_usage_for period_asset
    lookup period_spend check_period check_recipient recipient_of check_method check_limits opened
    signature_text handed_out increment_usage change get save add_usage add_field add_token
    spend_key insert add_period
refused = refl

answer-IsLeft_example : IsLeft (1000000 / 1000) (paid_key ∷ []) (paid_key ∷ [])
answer-IsLeft_example =
    answer-IsLeft vault toy_hash address_of 1000000 pay (paid_key ∷ []) (paid_key ∷ [])
      (SessionKeyError.scope_exceeded OutOfScope.over_allowance) refused

stored : get (codes "k") (fresh ∷ []) ≡ some fresh
unfolding get
stored = refl

unique : get (codes "k") [] ≡ none
unfolding get
unique = refl

affordable : IsInBudget fresh
unfolding accumulated_token_spend entry_of lookup
affordable = record {
  value = omega arith;
  gas = tt;
  count = omega arith;
  tokens = λ a t most e. omega arith;
  periods = λ asset limit window e. absurd (ground arith);
}

run-StaysWithin_example :
    StaysWithin fresh (run vault toy_hash address_of (codes "k") calls (fresh ∷ [], [])).1
run-StaysWithin_example =
    run-StaysWithin vault toy_hash address_of (codes "k") fresh calls (fresh ∷ []) (unique, tt)
      stored affordable (tt, (tt, (tt, (tt, (tt, tt)))))

inactive : IsInactive (codes "k") (revoked_key ∷ [])
unfolding get
inactive k found = ground arith

run-IsInactive_example :
    IsInactive
      (codes "k")
      (run vault toy_hash address_of (codes "k") calls (revoked_key ∷ [], [])).0
    × ((run vault toy_hash address_of (codes "k") calls (revoked_key ∷ [], [])).1 ≡ [])
run-IsInactive_example =
    run-IsInactive vault toy_hash address_of (codes "k") calls (revoked_key ∷ []) [] (unique, tt)
      inactive (tt, (tt, (tt, (tt, (tt, tt)))))

within_scope :
    check_session_scope vault (codes "k") transfer 1000 (transfer_key ∷ [])
    ≡ passed (record { value = some 3; gas = none; tx_count = some 1 })
unfolding answer sign_typed_data_with_session_key sign_typed_data check_typed_data is_valid_request
    is_evm_address is_hex_of is_uint256 is_decimal is_positive_decimal is_digit value_from has
    entry_of to_lower_case lower_unit sign_stored typed_data_digest typed_data_as_transaction
    hex_bytes hex_byte hex_digit pad_start hexadecimal hex_digits hex_value status_error
    has_valid_rails is_distinct counted sign_active is_unauthorized check_scope_against_tx
    amounts_of amount_field big_int trim_start trim_end is_space big_int_trimmed big_int_decimal
    check_amounts check_target check_chain check_contract is_native_recipient_transfer lists
    is_forbidden selector check_spending decode_scoped_token_spend decode_entry is_calldata
    read_spend layout_of hex_from check_token accumulated_token_spend period_usage_for period_asset
    lookup period_spend check_period check_recipient recipient_of check_method check_limits opened
    signature_text handed_out increment_usage change get save add_usage add_field add_token
    spend_key insert add_period check_session_scope check_stored refuse_raw_digest sign_raw
    sign_with_session_key is_malformed spent_in spend_amount big_int_based
within_scope = refl

ready : IsReady vault transfer_key
unfolding refuse_raw_digest is_unauthorized has_valid_rails has is_distinct
ready = record { raw = refl; authorized = refl; secret = codes "0x01"; opens = refl }

hash_length : is_hex_of 64 (codes "0x" ++ replicate 64 b'0') ≡ true
unfolding is_hex_of
hash_length = refl

transfer_stored : get (codes "k") (transfer_key ∷ []) ≡ some transfer_key
unfolding get
transfer_stored = refl

check_session_scope-signs_example :
    (signature : Text) × (keys' : List StoredSessionKey) × (sign_with_session_key vault
        (codes "k")
        (codes "0x" ++ replicate 64 b'0')
        transfer
        1000000
        (transfer_key ∷ [])
      ≡ (passed signature, keys'))
check_session_scope-signs_example =
    check_session_scope-signs vault (codes "k") (codes "0x" ++ replicate 64 b'0') transfer 1000000
      (transfer_key ∷ []) transfer_key (record { value = some 3; gas = none; tx_count = some 1 })
      transfer_stored refl ready hash_length within_scope

window_unchecked :
    check_session_scope vault (codes "k") transfer 1000 (windowed_key ∷ [])
    ≡ passed (record { value = some 3; gas = none; tx_count = some 1 })
unfolding answer sign_typed_data_with_session_key sign_typed_data check_typed_data is_valid_request
    is_evm_address is_hex_of is_uint256 is_decimal is_positive_decimal is_digit value_from has
    entry_of to_lower_case lower_unit sign_stored typed_data_digest typed_data_as_transaction
    hex_bytes hex_byte hex_digit pad_start hexadecimal hex_digits hex_value status_error
    has_valid_rails is_distinct counted sign_active is_unauthorized check_scope_against_tx
    amounts_of amount_field big_int trim_start trim_end is_space big_int_trimmed big_int_decimal
    check_amounts check_target check_chain check_contract is_native_recipient_transfer lists
    is_forbidden selector check_spending decode_scoped_token_spend decode_entry is_calldata
    read_spend layout_of hex_from check_token accumulated_token_spend period_usage_for period_asset
    lookup period_spend check_period check_recipient recipient_of check_method check_limits opened
    signature_text handed_out increment_usage change get save add_usage add_field add_token
    spend_key insert add_period check_session_scope check_stored refuse_raw_digest sign_raw
    sign_with_session_key is_malformed spent_in spend_amount big_int_based
window_unchecked = refl

window_refused :
    (sign_with_session_key vault
      (codes "k")
      (codes "0x" ++ replicate 64 b'0')
      transfer
      1000000
      (windowed_key ∷ [])).0
    ≡ thrown (SessionKeyError.scope_exceeded OutOfScope.over_period)
unfolding answer sign_typed_data_with_session_key sign_typed_data check_typed_data is_valid_request
    is_evm_address is_hex_of is_uint256 is_decimal is_positive_decimal is_digit value_from has
    entry_of to_lower_case lower_unit sign_stored typed_data_digest typed_data_as_transaction
    hex_bytes hex_byte hex_digit pad_start hexadecimal hex_digits hex_value status_error
    has_valid_rails is_distinct counted sign_active is_unauthorized check_scope_against_tx
    amounts_of amount_field big_int trim_start trim_end is_space big_int_trimmed big_int_decimal
    check_amounts check_target check_chain check_contract is_native_recipient_transfer lists
    is_forbidden selector check_spending decode_scoped_token_spend decode_entry is_calldata
    read_spend layout_of hex_from check_token accumulated_token_spend period_usage_for period_asset
    lookup period_spend check_period check_recipient recipient_of check_method check_limits opened
    signature_text handed_out increment_usage change get save add_usage add_field add_token
    spend_key insert add_period check_session_scope check_stored refuse_raw_digest sign_raw
    sign_with_session_key is_malformed spent_in spend_amount big_int_based
window_refused = refl
