-- ===== src/Session/Check/Accepts.antt =====
-- SessionKeyManager.ts: what `checkScopeAgainstTx` lets through.
use connect_lib.Base.{
  ℕ, ◌+◌, ◌≤◌, ◌<◌, ◌≡◌, ◌⊎◌, inl, inr, refl, Bool, true, false, Option, none, some, List, [], ◌∷◌,
  arith, Bool-cases,
}
use connect_lib.Base.Dict.{lookup, nat_eq}
use connect_lib.Base.Sets.{has}
use connect_lib.Base.Text.{Text, text_eq_of}
use connect_lib.Session.Types.{
  SessionKeyPeriod, SessionKeyScope, SessionKeyTransaction, OutOfScope, Remaining, passed,
}
use connect_lib.Session.Passed.{
  >>=-eq-passed, >>-eq-passed, refuse_when-eq-passed, refuse_when-passed,
}
use connect_lib.Session.Number.{Parsed, natural, amount_field, entry_of, lists, is_filled}
use connect_lib.Session.Token.{
  TokenSpend, selector, decode_scoped_token_spend, accumulated_token_spend,
}
use connect_lib.Session.Check.{
  Usage, PeriodSpend, period_usage_for, amounts_of, check_chain, is_native_recipient_transfer,
  check_contract, names, is_forbidden, exceeds, is_used_up, per_tx_limit, check_token, spent_in,
  check_period, recipient_of, check_recipient, check_method, check_limits, check_spending,
  check_target, check_amounts, check_scope_against_tx,
}

-- `n` is within a limit that may not be set.
abbrev pub IsUpTo : Option ℕ → ℕ → Type 0
IsUpTo none n = Unit
IsUpTo (some most) n = n ≤ most

-- The token that a call spends is within its limits.
abbrev pub IsAffordable : SessionKeyScope → Usage → Option TokenSpend → Type 0
IsAffordable scope u none = Unit
IsAffordable scope u (some s) =
    IsUpTo (per_tx_limit (entry_of s.token_address scope.token_max_per_tx)) s.amount
    × (accumulated_token_spend u.token_spends s.token_address + s.amount ≤ s.allowance)

-- What counts against a window fits in it.
abbrev pub IsInPeriod : SessionKeyScope → Usage → Option PeriodSpend → Type 0
IsInPeriod scope u none = Unit
IsInPeriod scope u (some p) =
    (limit : SessionKeyPeriod)
    → lookup p.asset scope.period_limits ≡ some limit
    → spent_in p.index (lookup p.asset u.periods) + p.amount ≤ limit.amount

-- A transaction is within a scope, for a key with that usage.
pub record IsInScope (forbidden : List Text) (now : ℕ) (scope : SessionKeyScope)
    (tx : SessionKeyTransaction) (u : Usage) : Type 0 where
  pub value : ℕ
  pub gas : ℕ
  pub value_is : amount_field tx.value ≡ natural value
  pub gas_is : amount_field tx.gas ≡ natural gas
  pub value_per_tx : IsUpTo scope.max_value_per_tx value
  pub total_value : IsUpTo scope.max_total_value (u.value + value)
  pub gas_per_tx : IsUpTo scope.max_gas_per_tx gas
  pub total_gas : IsUpTo scope.max_total_gas (u.gas + gas)
  pub tx_count : (most : ℕ) → scope.max_tx_count ≡ some most → u.use_count < most
  pub chain :
      (scope.allowed_chain_ids ≡ [])
      ⊎ ((n : ℕ) × (tx.chain_id ≡ some n) × (has n scope.allowed_chain_ids ≡ true))
  pub contract :
      (is_native_recipient_transfer scope tx value ≡ true)
      ⊎ ((scope.allowed_contracts ≡ []) ⊎ (lists tx.to scope.allowed_contracts ≡ true))
  pub spend : Option TokenSpend
  pub spend_is : decode_scoped_token_spend scope tx ≡ passed spend
  pub affordable : IsAffordable scope u spend
  pub period : Option PeriodSpend
  pub period_is : period_usage_for now scope tx u.periods spend ≡ passed period
  pub in_period : IsInPeriod scope u period
  pub recipient :
      (scope.allowed_recipients ≡ [])
      ⊎ (lists (recipient_of tx spend) scope.allowed_recipients ≡ true)
  pub allowed_method :
      (is_native_recipient_transfer scope tx value ≡ true)
      ⊎ ((scope.allowed_methods ≡ [])
          ⊎ (names (selector tx.data_field) scope.allowed_methods ≡ true))
  pub not_forbidden : is_forbidden forbidden tx ≡ false

exceeds-IsUpTo : (limit : Option ℕ) (n : ℕ) → exceeds limit n ≡ false → IsUpTo limit n
exceeds-IsUpTo none n h = tt
exceeds-IsUpTo (some most) n h = ground arith

amounts_lem :
    (v g : Parsed) (value gas : ℕ)
    → amounts_of v g ≡ passed (value, gas)
    → (v ≡ natural value) × (g ≡ natural gas)
unfolding amounts_of
amounts_lem v g value gas h = (ground arith, ground arith)

check_chain_lem :
    (chains : List ℕ) (chain : Option ℕ)
    → check_chain chains chain ≡ passed tt
    → (chains ≡ []) ⊎ ((n : ℕ) × (chain ≡ some n) × (has n chains ≡ true))
unfolding check_chain
check_chain_lem [] chain h = inl refl
check_chain_lem (c ∷ cs) none h = cc
check_chain_lem (c ∷ cs) (some n) h = inr (n, refl, ground arith)

check_contract_lem :
    (native : Bool) (scope : SessionKeyScope) (tx : SessionKeyTransaction)
    → check_contract native scope tx ≡ passed tt
    → (native ≡ true)
      ⊎ ((scope.allowed_contracts ≡ []) ⊎ (lists tx.to scope.allowed_contracts ≡ true))
unfolding check_contract
check_contract_lem true scope tx h = inl refl
check_contract_lem false scope tx h = inr (elim (Bool-cases (is_filled scope.allowed_contracts)) [
  | inl filled ↦ inr (ground arith)
  | inr empty ↦ inl (ground arith)
])

check_token_lem :
    (scope : SessionKeyScope) (u : Usage) (spend : Option TokenSpend)
    → check_token scope u.token_spends spend ≡ passed tt
    → IsAffordable scope u spend
unfolding check_token
check_token_lem scope u none h = tt
check_token_lem scope u (some s) h =
    let (small, rest) = refuse_when-eq-passed _ _ _ h in
    (exceeds-IsUpTo _ s.amount small, ground arith)

check_period_lem :
    (scope : SessionKeyScope) (u : Usage) (period : Option PeriodSpend)
    → check_period scope u.periods period ≡ passed tt
    → IsInPeriod scope u period
unfolding check_period
check_period_lem scope u none h = tt
check_period_lem scope u (some p) h = λ limit is. ground arith

check_recipient_lem :
    (allowed : List Text) (recipient : Text)
    → check_recipient allowed recipient ≡ passed tt
    → (allowed ≡ []) ⊎ (lists recipient allowed ≡ true)
unfolding check_recipient
check_recipient_lem [] recipient h = inl refl
check_recipient_lem (a ∷ as') recipient h = inr (ground arith)

check_method_lem :
    (native : Bool) (methods : List Text) (tx : SessionKeyTransaction)
    → check_method native methods tx ≡ passed tt
    → (native ≡ true) ⊎ ((methods ≡ []) ⊎ (names (selector tx.data_field) methods ≡ true))
unfolding check_method
check_method_lem true methods tx h = inl refl
check_method_lem false [] tx h = inr (inl refl)
check_method_lem false (m ∷ ms) tx h = inr (inr (ground arith))

-- What each part of the check has tested.
module _ (forbidden : List Text) (now : ℕ) (scope : SessionKeyScope) (tx : SessionKeyTransaction)
    (u : Usage) where
  limits_lem :
      (value gas : ℕ) (left : Remaining)
      → check_limits scope u (value, gas) ≡ passed left
      → IsUpTo scope.max_value_per_tx value
        × IsUpTo scope.max_total_value (u.value + value)
        × IsUpTo scope.max_gas_per_tx gas
        × IsUpTo scope.max_total_gas (u.gas + gas)
        × ((most : ℕ) → scope.max_tx_count ≡ some most → u.use_count < most)
  unfolding check_limits
  limits_lem value gas left h =
      let (v, h₁) = refuse_when-eq-passed _ (exceeds scope.max_value_per_tx value) _ h in
      let (w, h₂) =
        refuse_when-eq-passed _ (exceeds scope.max_total_value (u.value + value)) _ h₁ in
      let (g, h₃) = refuse_when-eq-passed _ (exceeds scope.max_gas_per_tx gas) _ h₂ in
      let (t, h₄) = refuse_when-eq-passed _ (exceeds scope.max_total_gas (u.gas + gas)) _ h₃ in
      let (c, h₅) = refuse_when-eq-passed _ (is_used_up scope.max_tx_count u.use_count) _ h₄ in
      (
        exceeds-IsUpTo _ value v,
        exceeds-IsUpTo _ (u.value + value) w,
        exceeds-IsUpTo _ gas g,
        exceeds-IsUpTo _ (u.gas + gas) t,
        λ most is. ground arith,
      )

  target_lem :
      (native : Bool)
      → check_target forbidden scope tx native ≡ passed tt
      → (check_chain scope.allowed_chain_ids tx.chain_id ≡ passed tt)
        × (check_contract native scope tx ≡ passed tt)
        × (is_forbidden forbidden tx ≡ false)
  unfolding check_target
  target_lem native h =
      let (id, h₁) = refuse_when-eq-passed _ _ OutOfScope.bad_chain_id h in
      let (gas, h₂) = refuse_when-eq-passed _ _ OutOfScope.gas_required h₁ in
      let (chain, h₃) = >>-eq-passed _ (check_chain scope.allowed_chain_ids tx.chain_id) h₂ in
      let (contract, h₄) = >>-eq-passed _ (check_contract native scope tx) h₃ in
      (chain, contract, refuse_when-passed _ _ h₄)

  spending_lem :
      check_spending now scope tx u ≡ passed tt
      → (spend : Option TokenSpend) × (period : Option PeriodSpend) × (decode_scoped_token_spend
            scope tx
          ≡ passed spend)
        × (check_token scope u.token_spends spend ≡ passed tt)
        × (period_usage_for now scope tx u.periods spend ≡ passed period)
        × (check_period scope u.periods period ≡ passed tt)
        × (check_recipient scope.allowed_recipients (recipient_of tx spend) ≡ passed tt)
  unfolding check_spending
  spending_lem h =
      let (spend, is, h₁) = >>=-eq-passed _ (decode_scoped_token_spend scope tx) h in
      let (token, h₂) = >>-eq-passed _ (check_token scope u.token_spends spend) h₁ in
      let (period, was, h₃) = >>=-eq-passed _ (period_usage_for now scope tx u.periods spend) h₂ in
      let (window, h₄) = >>-eq-passed _ (check_period scope u.periods period) h₃ in
      (spend, period, is, token, was, window, h₄)

  -- Every transaction that the check lets through is within the scope.
  pub check_scope_against_tx-IsInScope :
      (left : Remaining)
      → check_scope_against_tx forbidden now scope tx u ≡ passed left
      → IsInScope forbidden now scope tx u
  unfolding check_scope_against_tx check_amounts
  check_scope_against_tx-IsInScope left h =
      let ((value, gas), read, h₁) =
        >>=-eq-passed _ (amounts_of (amount_field tx.value) (amount_field tx.gas)) h in
      let native = is_native_recipient_transfer scope tx value in
      let (target, h₂) = >>-eq-passed _ (check_target forbidden scope tx native) h₁ in
      let (spending, h₃) = >>-eq-passed _ (check_spending now scope tx u) h₂ in
      let (method, h₄) = >>-eq-passed _ (check_method native scope.allowed_methods tx) h₃ in
      let (value_is, gas_is) = amounts_lem _ _ value gas read in
      let (v, w, g, t, c) = limits_lem value gas left h₄ in
      let (chain, contract, unforbidden) = target_lem native target in
      let (spend, period, is, token, was, window, payee) = spending_lem spending in
      record {
        value = value;
        gas = gas;
        value_is = value_is;
        gas_is = gas_is;
        value_per_tx = v;
        total_value = w;
        gas_per_tx = g;
        total_gas = t;
        tx_count = c;
        chain = check_chain_lem _ _ chain;
        contract = check_contract_lem native scope tx contract;
        spend = spend;
        spend_is = is;
        affordable = check_token_lem scope u spend token;
        period = period;
        period_is = was;
        in_period = check_period_lem scope u period window;
        recipient = check_recipient_lem _ _ payee;
        allowed_method = check_method_lem native _ tx method;
        not_forbidden = unforbidden;
      }
