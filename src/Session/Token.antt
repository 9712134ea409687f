-- ===== src/Session/Token.antt =====
-- SessionKeyManager.ts: the token transfer that a call's data asks for.
use connect_lib.Base.{
  ℕ, ◌+◌, Bool, not, ◌&&◌, Option, none, some, ◌++◌, ◌==◌, if◌then◌else◌, all, drop, take, length,
}
use connect_lib.Base.Dict.{Dict}
use connect_lib.Base.Hex.{is_hex, hex_from}
use connect_lib.Base.Text.{Text, codes, text_eq, to_lower_case}
use connect_lib.Session.Types.{
  SessionKeyScope, SessionKeyTransaction, OutOfScope, calldata_required, method_not_token,
  calldata_length, Checked, passed, thrown,
}
use connect_lib.Session.Number.{entry_of, is_filled}

pub record TokenSpend : Type 0 where
  pub token_address : Text
  pub amount : ℕ
  pub allowance : ℕ
  pub recipient : Text

-- `/^0x[0-9a-fA-F]+$/`
unfoldable pub is_calldata : Text → Bool
is_calldata t = text_eq (take 2 t) (codes "0x") && is_filled (drop 2 t) && all is_hex (drop 2 t)

-- `data.slice(0, 10).toLowerCase()`
unfoldable pub selector : Text → Text
selector calldata = to_lower_case (take 10 calldata)

abbrev pub slice : ℕ → ℕ → Text → Text
slice start count t = take count (drop start t)

-- Where the recipient stands, where the amount does, and the length.
pub record Layout : Type 0 where
  pub recipient_start : ℕ
  pub amount_start : ℕ
  pub expected_length : ℕ

unfoldable pub layout_of : Text → Option Layout
layout_of method =
    if text_eq method (codes "0xa9059cbb")
    then some (record { recipient_start = 10; amount_start = 74; expected_length = 138 })
    else if text_eq method (codes "0x23b872dd")
    then some (record { recipient_start = 74; amount_start = 138; expected_length = 202 })
    else none

unfoldable pub read_spend : Text → Text × ℕ → Option Layout → Checked OutOfScope (Option TokenSpend)
read_spend calldata (token, allowance) none = thrown method_not_token
read_spend calldata (token, allowance) (some l) =
    if not (length calldata == l.expected_length)
    then thrown calldata_length
    else passed (
        some (record {
          token_address = token;
          amount = hex_from 0 (slice l.amount_start 64 calldata);
          allowance = allowance;
          recipient = codes "0x" ++ slice (l.recipient_start + 24) 40 calldata;
        }))

unfoldable pub decode_entry : Text → Option (Text × ℕ) → Checked OutOfScope (Option TokenSpend)
decode_entry calldata none = passed none
decode_entry calldata (some entry) =
    if not (is_calldata calldata)
    then thrown calldata_required
    else read_spend calldata entry (layout_of (selector calldata))

-- `decodeScopedTokenSpend`
unfoldable pub decode_scoped_token_spend :
    SessionKeyScope → SessionKeyTransaction → Checked OutOfScope (Option TokenSpend)
decode_scoped_token_spend scope tx =
    if not (is_filled tx.to)
    then passed none
    else decode_entry tx.data_field (entry_of tx.to scope.token_allowances)

abbrev pub amount_of_entry : Option (Text × ℕ) → ℕ
amount_of_entry none = 0
amount_of_entry (some (_, amount)) = amount

-- `accumulatedTokenSpend`
unfoldable pub accumulated_token_spend : Dict Text ℕ → Text → ℕ
accumulated_token_spend spends token = amount_of_entry (entry_of token spends)
