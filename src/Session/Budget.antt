-- ===== src/Session/Budget.antt =====
-- SessionKeyManager.ts and storage.ts: the budget of a stored key.
pub mod Tokens
use connect_lib.Base.{
  ℕ, suc, ◌+◌, ◌≤◌, ◌<◌, ◌≡◌, refl, Bool, true, false, Option, none, some, List, [], ◌∷◌, arith,
  or_else, Bool-cases, inl, inr, if◌then◌else◌, ◌==◌, ltb, leb, any, Option-cases,
}
use connect_lib.Base.Dict.{Dict, lookup, lookup-insert}
use connect_lib.Base.Text.{Text, text_eq, text_eq_iff, text_eq_of}
use connect_lib.Session.Types.{
  SessionKeyPeriod, PeriodUsage, SessionKeyScope, SessionKeyTransaction, StoredSessionKey,
}
use connect_lib.Session.Number.{natural, amount_field, amount_or_zero, entry_of}
use connect_lib.Session.Token.{TokenSpend, accumulated_token_spend}
use connect_lib.Session.Check.{PeriodSpend, spent_in, Usage}
use connect_lib.Session.Check.Accepts.{IsUpTo, IsInScope, IsAffordable, IsInPeriod}
use connect_lib.Session.Store.{add_field, add_token, add_period, add_usage}
use connect_lib.Session.Sign.{usage_of}
use connect_lib.Session.Budget.Tokens.{token-add_token}

-- What a key has spent is within its scope.
pub record IsInBudget (k : StoredSessionKey) : Type 0 where
  pub value : IsUpTo k.scope.max_total_value (or_else k.accumulated_value 0)
  pub gas : IsUpTo k.scope.max_total_gas (or_else k.accumulated_gas 0)
  pub count : IsUpTo k.scope.max_tx_count k.use_count
  pub tokens :
      (address token : Text) (allowance : ℕ)
      → entry_of address k.scope.token_allowances ≡ some (token, allowance)
      → accumulated_token_spend k.accumulated_token_spends address ≤ allowance
  pub periods :
      (asset : Text) (limit : SessionKeyPeriod) (window : ℕ)
      → lookup asset k.scope.period_limits ≡ some limit
      → spent_in window (lookup asset k.period_usage) ≤ limit.amount

pub add_field_lem :
    (t : Text) (total : Option ℕ)
    → or_else (add_field t total) 0 ≡ or_else total 0 + amount_or_zero (amount_field t)
unfolding add_field amount_field
add_field_lem [] total = omega arith
add_field_lem (c ∷ cs) total = refl

IsUpTo-suc :
    (limit : Option ℕ) (n : ℕ) → ((most : ℕ) → limit ≡ some most → n < most) → IsUpTo limit (suc n)
IsUpTo-suc none n h = tt
IsUpTo-suc (some most) n h = omega (arith, h most refl)

period_lem :
    (scope : SessionKeyScope) (u : Usage) (period : Option PeriodSpend) (asset : Text)
    (limit : SessionKeyPeriod) (window : ℕ)
    → IsInPeriod scope u period
    → lookup asset scope.period_limits ≡ some limit
    → spent_in window (lookup asset u.periods) ≤ limit.amount
    → spent_in window (lookup asset (add_period period u.periods)) ≤ limit.amount
unfolding add_period spent_in
period_lem scope u none asset limit window fits is before = before
period_lem scope u (some p) asset limit window fits is before =
    elim (Bool-cases (text_eq p.asset asset)) [
      | inl same ↦
          let here : p.asset ≡ asset = (text_eq_iff p.asset asset).0 same in
          rw (lookup-insert p.asset asset _ u.periods, same)
            (elim (Bool-cases (p.index == window)) [
              | inl now ↦ rw now (fits limit (rw here is))
              | inr other ↦ rw other (omega arith)
            ])
      | inr apart ↦ rw (lookup-insert p.asset asset _ u.periods, apart) before
    ]

-- Counting a transaction that is within the scope keeps a key in its budget.
pub add_usage-IsInBudget :
    (forbidden : List Text) (now now_ms : ℕ) (key : StoredSessionKey) (tx : SessionKeyTransaction)
    (v : IsInScope forbidden now key.scope tx (usage_of key))
    → IsInBudget key
    → IsInBudget (add_usage now_ms tx v.spend v.period key)
unfolding add_usage
add_usage-IsInBudget forbidden now now_ms key tx v b = record {
  value = rw (add_field_lem tx.value key.accumulated_value, v.value_is) v.total_value;
  gas = rw (add_field_lem tx.gas key.accumulated_gas, v.gas_is) v.total_gas;
  count = IsUpTo-suc key.scope.max_tx_count key.use_count v.tx_count;
  tokens = λ address token allowance is.
      token-add_token key.scope (usage_of key) tx v.spend v.spend_is v.affordable address token
        allowance is (b.tokens address token allowance is);
  periods = λ asset limit window is.
      period_lem key.scope (usage_of key) v.period asset limit window v.in_period is
        (b.periods asset limit window is);
}
