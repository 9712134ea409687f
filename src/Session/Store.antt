-- ===== src/Session/Store.antt =====
-- session-keys/storage.ts: `SessionKeyStorage`, the list of stored keys.
--
-- The adapter's locks make each operation one step over the whole list. Amounts are parsed when
-- they come here.
pub mod Get
use connect_lib.Base.{
  ℕ, suc, ◌+◌, Bool, true, false, not, Option, none, some, List, [], ◌∷◌, ◌++◌, ◌==◌, if◌then◌else◌,
  or_else, filter, find?, any,
}
use connect_lib.Base.Dict.{Dict, lookup, insert}
use connect_lib.Base.Text.{Text, text_eq, text_eq_of}
use connect_lib.Session.Types.{
  PeriodUsage, StoredSessionKey, SessionKeyStatus, SessionKeyError, not_found, Checked, passed,
  thrown, SessionKeyTransaction,
}
use connect_lib.Session.Number.{amount_field, amount_or_zero, entry_of, is_filled}
use connect_lib.Session.Token.{TokenSpend}
use connect_lib.Session.Check.{PeriodSpend, spent_in}

-- `get`
unfoldable pub get : Text → List StoredSessionKey → Option StoredSessionKey
get id [] = none
get id (k ∷ keys) = if text_eq k.id id then some k else get id keys

-- `save`: replaces the key of that id, or adds it
unfoldable pub save : StoredSessionKey → List StoredSessionKey → List StoredSessionKey
save key [] = key ∷ []
save key (k ∷ keys) = if text_eq k.id key.id then key ∷ keys else k ∷ save key keys

-- A change of the object that `find` gives.
unfoldable pub change :
    Text
    → (StoredSessionKey → StoredSessionKey)
    → List StoredSessionKey
    → Checked SessionKeyError (Unit {0}) × List StoredSessionKey
unfolding get save
change id f keys = elim (get id keys) [
  | none ↦ (thrown not_found, keys)
  | some key ↦ (passed tt, save (f key) keys)
]

-- `updateStatus`
unfoldable pub update_status :
    Text
    → SessionKeyStatus
    → List StoredSessionKey
    → Checked SessionKeyError (Unit {0}) × List StoredSessionKey
update_status id status = change id (λ key. record key { status = status })

-- `remove`
unfoldable pub remove : Text → List StoredSessionKey → List StoredSessionKey
remove id keys = filter (λ (k : StoredSessionKey). not (text_eq k.id id)) keys

-- `if (tx?.value) total = (total ?? 0n) + BigInt(tx.value)`
unfoldable pub add_field : Text → Option ℕ → Option ℕ
add_field [] total = total
add_field (c ∷ cs) total = some (or_else total 0 + amount_or_zero (amount_field (c ∷ cs)))

-- The key that a token has in the record, if any has the address.
unfoldable pub spend_key : Text → Option (Text × ℕ) → Text
spend_key token none = token
spend_key token (some (existing, _)) = existing

unfoldable pub add_token : Option TokenSpend → Dict Text ℕ → Dict Text ℕ
add_token none spends = spends
add_token (some s) spends =
    let token : Text = spend_key s.token_address (entry_of s.token_address spends) in
    insert token (or_else (lookup token spends) 0 + s.amount) spends

unfoldable pub add_period : Option PeriodSpend → Dict Text PeriodUsage → Dict Text PeriodUsage
add_period none periods = periods
add_period (some p) periods =
    insert p.asset
      (record { index = p.index; spent = spent_in p.index (lookup p.asset periods) + p.amount })
      periods

-- What `incrementUsageUnlocked` makes of a key.
unfoldable pub add_usage :
    ℕ
    → SessionKeyTransaction
    → Option TokenSpend
    → Option PeriodSpend
    → StoredSessionKey
    → StoredSessionKey
add_usage now_ms tx spend period key = record key {
  use_count = suc key.use_count;
  last_used_at = now_ms;
  accumulated_value = add_field tx.value key.accumulated_value;
  accumulated_gas = add_field tx.gas key.accumulated_gas;
  accumulated_token_spends = add_token spend key.accumulated_token_spends;
  period_usage = add_period period key.period_usage;
}

-- `incrementUsageUnlocked`
unfoldable pub increment_usage :
    Text
    → ℕ
    → SessionKeyTransaction
    → Option TokenSpend
    → Option PeriodSpend
    → List StoredSessionKey
    → Checked SessionKeyError (Unit {0}) × List StoredSessionKey
increment_usage id now_ms tx spend period = change id (add_usage now_ms tx spend period)
