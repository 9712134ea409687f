-- ===== src/Session/Check.antt =====
-- SessionKeyManager.ts: `periodUsageFor` and `checkScopeAgainstTx`.
--
-- Times are seconds here. The seconds of a period are positive, as the creation of a key has them.
pub mod Accepts
use connect_lib.Base.{
  ℕ, ◌+◌, ◌-◌, ◌/◌, Bool, true, false, not, ◌&&◌, ◌||◌, Option, none, some, List, [], ◌∷◌, leb, ltb,
  ◌==◌, if◌then◌else◌, is_some, or_else, any, length,
}
use connect_lib.Base.Dict.{Dict, lookup, nat_eq}
use connect_lib.Base.Sets.{has}
use connect_lib.Base.Text.{Text, codes, text_eq, text_eq_of, to_lower_case}
use connect_lib.Authorization.Names.{is_safe}
use connect_lib.Session.Types.{
  SessionKeyPeriod, PeriodUsage, SessionKeyScope, SessionKeyTransaction, OutOfScope, Remaining,
  Checked, passed, thrown, ◌>>=◌, ◌>>◌, refuse_when,
}
use connect_lib.Session.Number.{
  Parsed, malformed, below_zero, natural, amount_field, amount_or_zero, entry_of, lists,
  same_address, is_filled,
}
use connect_lib.Session.Token.{
  TokenSpend, selector, decode_scoped_token_spend, accumulated_token_spend,
}

-- What a key has spent, as the check takes it.
pub record Usage : Type 0 where
  pub use_count : ℕ
  pub value : ℕ
  pub gas : ℕ
  pub token_spends : Dict Text ℕ
  pub periods : Dict Text PeriodUsage

-- What a transaction adds to the spending of a window.
pub record PeriodSpend : Type 0 where
  pub asset : Text
  pub index : ℕ
  pub amount : ℕ

abbrev pub native_asset : Text
native_asset = codes "native"

-- The key of the period that a transaction counts against.
unfoldable pub period_asset : SessionKeyScope → Option TokenSpend → Option (Text × SessionKeyPeriod)
period_asset scope (some spend) = entry_of spend.token_address scope.period_limits
period_asset scope none = elim (lookup native_asset scope.period_limits) [
  | none ↦ none
  | some period ↦ some (native_asset, period)
]

-- Whether the stored usage of a window is of none that can have been.
unfoldable pub is_malformed : ℕ → Option PeriodUsage → Bool
is_malformed index none = false
is_malformed index (some u) = not (is_safe u.index) || ltb index u.index

unfoldable pub spend_amount : SessionKeyTransaction → Option TokenSpend → ℕ
spend_amount tx (some spend) = spend.amount
spend_amount tx none = amount_or_zero (amount_field tx.value)

unfoldable pub period_spend :
    ℕ
    → SessionKeyTransaction
    → Dict Text PeriodUsage
    → Option TokenSpend
    → Option (Text × SessionKeyPeriod)
    → Checked OutOfScope (Option PeriodSpend)
period_spend now tx usage spend none = passed none
period_spend now tx usage spend (some (asset, p)) = do
  refuse_when (ltb now p.start) OutOfScope.period_not_started
  refuse_when (is_malformed ((now - p.start) / p.seconds) (lookup asset usage))
      OutOfScope.period_malformed
  passed (
      some (record {
        asset = asset;
        index = (now - p.start) / p.seconds;
        amount = spend_amount tx spend;
      }))

-- `periodUsageFor`
unfoldable pub period_usage_for :
    ℕ
    → SessionKeyScope
    → SessionKeyTransaction
    → Dict Text PeriodUsage
    → Option TokenSpend
    → Checked OutOfScope (Option PeriodSpend)
period_usage_for now scope tx usage spend =
    period_spend now tx usage spend (period_asset scope spend)

-- The value and the gas of a transaction.
unfoldable pub amounts_of : Parsed → Parsed → Checked OutOfScope (ℕ × ℕ)
amounts_of malformed gas = thrown OutOfScope.not_integers
amounts_of below_zero malformed = thrown OutOfScope.not_integers
amounts_of (natural v) malformed = thrown OutOfScope.not_integers
amounts_of below_zero below_zero = thrown OutOfScope.negative_amount
amounts_of below_zero (natural g) = thrown OutOfScope.negative_amount
amounts_of (natural v) below_zero = thrown OutOfScope.negative_amount
amounts_of (natural v) (natural g) = passed (v, g)

abbrev pub is_chain_id : Option ℕ → Bool
is_chain_id none = true
is_chain_id (some n) = is_safe n && ltb 0 n

unfoldable pub check_chain : List ℕ → Option ℕ → Checked OutOfScope (Unit {0})
check_chain [] chain = passed tt
check_chain (c ∷ cs) none = thrown OutOfScope.chain_required
check_chain (c ∷ cs) (some chain) =
    refuse_when (not (has chain (c ∷ cs))) OutOfScope.chain_not_allowed

-- `Boolean(tx.data && tx.data !== "0x")`
abbrev pub has_calldata : SessionKeyTransaction → Bool
has_calldata tx = is_filled tx.data_field && not (text_eq tx.data_field (codes "0x"))

unfoldable pub is_native_recipient_transfer : SessionKeyScope → SessionKeyTransaction → ℕ → Bool
is_native_recipient_transfer scope tx value =
    scope.native_transfer
    && (ltb 0 value
        && (not (has_calldata tx) && (is_filled tx.to && lists tx.to scope.allowed_recipients)))

unfoldable pub check_contract :
    Bool → SessionKeyScope → SessionKeyTransaction → Checked OutOfScope (Unit {0})
check_contract native scope tx =
    if native
    then passed tt
    else if is_filled scope.allowed_contracts && is_filled tx.to
    then refuse_when (not (lists tx.to scope.allowed_contracts)) OutOfScope.contract_not_allowed
    else refuse_when (is_filled scope.allowed_contracts || scope.native_transfer)
        OutOfScope.target_required

-- `methods.some((method) => method.toLowerCase() === methodId)`
abbrev pub names : Text → List Text → Bool
names method methods = any (λ m. text_eq (to_lower_case m) method) methods

abbrev pub has_selector : SessionKeyTransaction → Bool
has_selector tx = leb 10 (length tx.data_field)

unfoldable pub is_forbidden : List Text → SessionKeyTransaction → Bool
is_forbidden forbidden tx = has_selector tx && names (selector tx.data_field) forbidden

-- `undefined` limits nothing.
abbrev pub exceeds : Option ℕ → ℕ → Bool
exceeds none n = false
exceeds (some most) n = ltb most n

abbrev pub is_used_up : Option ℕ → ℕ → Bool
is_used_up none n = false
is_used_up (some most) n = leb most n

abbrev pub per_tx_limit : Option (Text × ℕ) → Option ℕ
per_tx_limit none = none
per_tx_limit (some (_, most)) = some most

unfoldable pub check_token :
    SessionKeyScope → Dict Text ℕ → Option TokenSpend → Checked OutOfScope (Unit {0})
check_token scope spends none = passed tt
check_token scope spends (some s) = do
  refuse_when (exceeds (per_tx_limit (entry_of s.token_address scope.token_max_per_tx)) s.amount)
      OutOfScope.over_token_per_tx
  refuse_when (ltb s.allowance (accumulated_token_spend spends s.token_address + s.amount))
      OutOfScope.over_allowance

-- What is spent in the window of that index.
unfoldable pub spent_in : ℕ → Option PeriodUsage → ℕ
spent_in index none = 0
spent_in index (some u) = if u.index == index then u.spent else 0

unfoldable pub check_period :
    SessionKeyScope → Dict Text PeriodUsage → Option PeriodSpend → Checked OutOfScope (Unit {0})
check_period scope usage none = passed tt
check_period scope usage (some p) = elim (lookup p.asset scope.period_limits) [
  | none ↦ passed tt
  | some limit ↦
      refuse_when (ltb limit.amount (spent_in p.index (lookup p.asset usage) + p.amount))
        OutOfScope.over_period
]

unfoldable pub recipient_of : SessionKeyTransaction → Option TokenSpend → Text
recipient_of tx (some s) = s.recipient
recipient_of tx none = if has_calldata tx then [] else tx.to

unfoldable pub check_recipient : List Text → Text → Checked OutOfScope (Unit {0})
check_recipient [] recipient = passed tt
check_recipient (a ∷ as') recipient = do
  refuse_when (not (is_filled recipient)) OutOfScope.no_recipient
  refuse_when (not (lists recipient (a ∷ as'))) OutOfScope.recipient_not_allowed

unfoldable pub check_method :
    Bool → List Text → SessionKeyTransaction → Checked OutOfScope (Unit {0})
check_method native methods tx =
    if is_filled methods && has_selector tx
    then refuse_when (not (names (selector tx.data_field) methods)) OutOfScope.method_not_allowed
    else refuse_when (is_filled methods && not native) OutOfScope.data_required

abbrev pub is_gas_missing : SessionKeyScope → SessionKeyTransaction → Bool
is_gas_missing scope tx =
    (is_some scope.max_gas_per_tx || is_some scope.max_total_gas) && not (is_filled tx.gas)

abbrev pub left_of : Option ℕ → ℕ → Option ℕ
left_of none n = none
left_of (some most) n = some (most - n)

unfoldable pub check_limits : SessionKeyScope → Usage → ℕ × ℕ → Checked OutOfScope Remaining
check_limits scope u (value, gas) = do
  refuse_when (exceeds scope.max_value_per_tx value) OutOfScope.over_value_per_tx
  refuse_when (exceeds scope.max_total_value (u.value + value)) OutOfScope.over_total_value
  refuse_when (exceeds scope.max_gas_per_tx gas) OutOfScope.over_gas_per_tx
  refuse_when (exceeds scope.max_total_gas (u.gas + gas)) OutOfScope.over_total_gas
  refuse_when (is_used_up scope.max_tx_count u.use_count) OutOfScope.over_tx_count
  passed (record {
    value = left_of scope.max_total_value (u.value + value);
    gas = left_of scope.max_gas_per_tx gas;
    tx_count = left_of scope.max_tx_count (u.use_count + 1);
  })

-- The tests of what a call pays and whom, between those of the target and those of the limits.
unfoldable pub check_spending :
    ℕ → SessionKeyScope → SessionKeyTransaction → Usage → Checked OutOfScope (Unit {0})
check_spending now scope tx u = do
  spend ← decode_scoped_token_spend scope tx
  check_token scope u.token_spends spend
  period ← period_usage_for now scope tx u.periods spend
  check_period scope u.periods period
  check_recipient scope.allowed_recipients (recipient_of tx spend)

-- The tests of the chain, the target and the method.
unfoldable pub check_target :
    List Text → SessionKeyScope → SessionKeyTransaction → Bool → Checked OutOfScope (Unit {0})
check_target forbidden scope tx native = do
  refuse_when (not (is_chain_id tx.chain_id)) OutOfScope.bad_chain_id
  refuse_when (is_gas_missing scope tx) OutOfScope.gas_required
  check_chain scope.allowed_chain_ids tx.chain_id
  check_contract native scope tx
  refuse_when (is_forbidden forbidden tx) OutOfScope.method_forbidden

unfoldable pub check_amounts :
    List Text
    → ℕ
    → SessionKeyScope
    → SessionKeyTransaction
    → Usage
    → ℕ × ℕ
    → Checked OutOfScope Remaining
check_amounts forbidden now scope tx u (value, gas) = do
  check_target forbidden scope tx (is_native_recipient_transfer scope tx value)
  check_spending now scope tx u
  check_method (is_native_recipient_transfer scope tx value) scope.allowed_methods tx
  check_limits scope u (value, gas)

-- `checkScopeAgainstTx`
unfoldable pub check_scope_against_tx :
    List Text → ℕ → SessionKeyScope → SessionKeyTransaction → Usage → Checked OutOfScope Remaining
check_scope_against_tx forbidden now scope tx u = do
  amounts ← amounts_of (amount_field tx.value) (amount_field tx.gas)
  check_amounts forbidden now scope tx u amounts
