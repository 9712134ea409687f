-- ===== src/Session/Manager/Run/Within.antt =====
-- SessionKeyManager.ts: the transactions that the signing calls of one key are given and checked
-- with, in any sequence of calls.
use connect_lib.Base.{
  ℕ, ◌+◌, ◌/◌, ◌≡◌, ◌≤◌, refl, sym, ap, ◌∙◌, subst, inl, inr, Option, none, some, List, [], ◌∷◌,
  arith, or_else, length, Bool-cases,
}
use connect_lib.Base.Bytes.{Bytes}
use connect_lib.Base.Text.{Text, text_eq_iff}
use connect_lib.Session.Types.{SessionKeyTransaction, StoredSessionKey, passed}
use connect_lib.Session.Number.{entry_of, same_address}
use connect_lib.Session.Token.{TokenSpend, decode_scoped_token_spend, accumulated_token_spend}
use connect_lib.Session.Check.Accepts.{IsUpTo}
use connect_lib.Session.Store.{get, add_usage, add_token}
use connect_lib.Session.Store.Get.{get-save, get-id}
use connect_lib.Session.Sign.{Vault}
use connect_lib.Session.Budget.{IsInBudget, add_usage-IsInBudget, add_field_lem}
use connect_lib.Session.Budget.Tokens.{spend-add_token, accumulated_token_spend-same}
use connect_lib.Session.Manager.Kept.{IsKept}
use connect_lib.Session.Manager.Outcome.{IsCounted}
use connect_lib.Session.Manager.Refresh.{AreUnique}
use connect_lib.Session.Manager.Run.{
  Call, State, run, AreOther, value_total, gas_total, token_part, token_total,
}
use connect_lib.Session.Manager.Run.Steps.{Moves, step-Moves}

-- What a key had spent at first, with the transactions counted since, is within its scope.
pub record StaysWithin (k : StoredSessionKey) (log : List SessionKeyTransaction) : Type 0 where
  pub value : IsUpTo k.scope.max_total_value (or_else k.accumulated_value 0 + value_total log)
  pub gas : IsUpTo k.scope.max_total_gas (or_else k.accumulated_gas 0 + gas_total log)
  pub count : IsUpTo k.scope.max_tx_count (k.use_count + length log)
  pub tokens :
      (address token : Text) (allowance : ℕ)
      → entry_of address k.scope.token_allowances ≡ some (token, allowance)
      → accumulated_token_spend k.accumulated_token_spends address + token_total k.scope address log
        ≤ allowance

-- `k` is the key `k₀` after the transactions of the list.
record IsAfter (k₀ k : StoredSessionKey) (log : List SessionKeyTransaction) : Type 0 where
  budget : IsInBudget k
  scope : k.scope ≡ k₀.scope
  value : or_else k.accumulated_value 0 ≡ or_else k₀.accumulated_value 0 + value_total log
  gas : or_else k.accumulated_gas 0 ≡ or_else k₀.accumulated_gas 0 + gas_total log
  count : k.use_count ≡ k₀.use_count + length log
  tokens :
      (address : Text)
      → accumulated_token_spend k.accumulated_token_spends address
        ≡ accumulated_token_spend k₀.accumulated_token_spends address
          + token_total k₀.scope address log

IsAfter-StaysWithin :
    (k₀ k : StoredSessionKey) (log : List SessionKeyTransaction)
    → IsAfter k₀ k log
    → StaysWithin k₀ log
IsAfter-StaysWithin k₀ k log v = record {
  value = subst (λ n. IsUpTo k₀.scope.max_total_value n) v.value (rw v.scope at v.budget.value);
  gas = subst (λ n. IsUpTo k₀.scope.max_total_gas n) v.gas (rw v.scope at v.budget.gas);
  count = subst (λ n. IsUpTo k₀.scope.max_tx_count n) v.count (rw v.scope at v.budget.count);
  tokens = λ address token allowance is.
      subst (λ n. n ≤ allowance) (v.tokens address)
        (v.budget.tokens address token allowance (rw v.scope is));
}

IsInBudget-kept : (k k' : StoredSessionKey) → IsKept k k' → IsInBudget k → IsInBudget k'
IsInBudget-kept k k' v b = subst IsInBudget (sym v.same) (record {
  value = b.value;
  gas = b.gas;
  count = b.count;
  tokens = b.tokens;
  periods = b.periods;
})

IsAfter-kept :
    (k₀ k k' : StoredSessionKey) (log : List SessionKeyTransaction)
    → IsKept k k'
    → IsAfter k₀ k log
    → IsAfter k₀ k' log
IsAfter-kept k₀ k k' log v a =
    let b = IsInBudget-kept k k' v a.budget in
    subst (λ j. IsInBudget j → IsAfter k₀ j log) (sym v.same)
      (λ b'. record {
        budget = b';
        scope = a.scope;
        value = a.value;
        gas = a.gas;
        count = a.count;
        tokens = a.tokens;
      })
      b

token_part_lem :
    (k : StoredSessionKey) (spend : Option TokenSpend) (address : Text)
    → accumulated_token_spend (add_token spend k.accumulated_token_spends) address
      ≡ token_part address (passed spend)
        + accumulated_token_spend k.accumulated_token_spends address
unfolding add_token
token_part_lem k none address = omega arith
token_part_lem k (some s) address =
    spend-add_token s k.accumulated_token_spends address
    ∙ elim (Bool-cases (same_address s.token_address address)) [
      | inr other ↦ rw other (omega arith)
      | inl same ↦
          rw
            (
              same,
              accumulated_token_spend-same s.token_address address k.accumulated_token_spends same,
            )
            (omega arith)
    ]

IsAfter-counted :
    (k₀ : StoredSessionKey) (id : Text) (tx : SessionKeyTransaction) (now : ℕ)
    (keys keys' : List StoredSessionKey) (log : List SessionKeyTransaction)
    (c : IsCounted id tx now keys keys')
    → IsAfter k₀ c.key log
    → IsAfter k₀ (add_usage now tx c.in_scope.spend c.in_scope.period c.key) (tx ∷ log)
unfolding add_usage value_total gas_total token_total
IsAfter-counted k₀ id tx now keys keys' log c a =
    let k = c.key in
    record {
      budget = add_usage-IsInBudget c.forbidden (now / 1000) now k tx c.in_scope a.budget;
      scope = a.scope;
      value = omega (arith, add_field_lem tx.value k.accumulated_value, a.value);
      gas = omega (arith, add_field_lem tx.gas k.accumulated_gas, a.gas);
      count = omega (arith, a.count);
      tokens = λ address.
          let decoded : decode_scoped_token_spend k₀.scope tx ≡ passed c.in_scope.spend =
            rw (← a.scope) c.in_scope.spend_is in
          rw decoded (omega (arith, token_part_lem k c.in_scope.spend address, a.tokens address));
    }

-- What is known of the key of an id, after the transactions of a list.
record IsTracked (k₀ : StoredSessionKey) (id : Text) (keys : List StoredSessionKey)
    (log : List SessionKeyTransaction) : Type 0 where
  unique : AreUnique keys
  after : (k : StoredSessionKey) → get id keys ≡ some k → IsAfter k₀ k log
  within : StaysWithin k₀ log

Moves-IsTracked :
    (k₀ : StoredSessionKey) (id : Text) (keys : List StoredSessionKey)
    (log : List SessionKeyTransaction) (s : State)
    → IsTracked k₀ id keys log
    → Moves id (keys, log) s
    → IsTracked k₀ id s.0 s.1
unfolding add_usage
Moves-IsTracked k₀ id keys log (keys', log') t (unique, inl (keeps, same)) = rw same (record {
  unique = unique;
  after = λ k' found.
      let (k, before, v) = keeps k' found in IsAfter-kept k₀ k k' log v (t.after k before);
  within = t.within;
})
Moves-IsTracked k₀ id keys log (keys', log') t (unique, inr (tx, now, c, same)) =
    let f = add_usage now tx c.in_scope.spend c.in_scope.period c.key in
    let next = IsAfter-counted k₀ id tx now keys keys' log c (t.after c.key c.stored) in
    let named = get-id id keys c.key c.stored in
    let found : get id keys' ≡ some f =
      ap (get id) c.counts ∙ get-save id f keys ∙ rw ((text_eq_iff c.key.id id).1 named) refl in
    rw same (record {
      unique = unique;
      after = λ k is.
          let new : ◌≡◌ {A = Option StoredSessionKey} (some f) (some k) = sym found ∙ is in
          let one : f ≡ k = ground arith in subst (λ j. IsAfter k₀ j (tx ∷ log)) one next;
      within = IsAfter-StaysWithin k₀ f (tx ∷ log) next;
    })

at_first : (k : StoredSessionKey) → IsInBudget k → IsAfter k k []
unfolding value_total gas_total token_total
at_first k b = record {
  budget = b;
  scope = refl;
  value = omega arith;
  gas = omega arith;
  count = omega arith;
  tokens = λ address. omega arith;
}

module _ (x : Vault) (keccak : Bytes → Bytes) (session_key_address : Text → Text) (id : Text) where
  run-IsTracked :
      (k₀ : StoredSessionKey) (calls : List (ℕ × Call)) (keys : List StoredSessionKey)
      (log : List SessionKeyTransaction)
      → IsTracked k₀ id keys log
      → AreOther id calls
      → IsTracked k₀ id
          (run x keccak session_key_address id calls (keys, log)).0
          (run x keccak session_key_address id calls (keys, log)).1
  unfolding run
  run-IsTracked k₀ [] keys log t others = t
  run-IsTracked k₀ ((now, call) ∷ calls) keys log t (other, others) =
      let moves = step-Moves x keccak session_key_address id now call keys log t.unique other in
      run-IsTracked k₀ calls _ _ (Moves-IsTracked k₀ id keys log _ t moves) others

  -- In any sequence of the calls of Session/Manager/Run that creates no other key of its id, take
  -- the transactions that the successful signing calls of a key within its budget were given: the
  -- caller's description beside a hash, the transfer that typed data asks for, or the execution of
  -- a redemption with the gas of its outer transaction. Together with
  -- what the key had spent before they move no more value, no more gas and no more of a token than
  -- its scope allows, and are not more than the scope allows. Nothing is said of a hash that does
  -- not belong to its description.
  pub run-StaysWithin :
      (k : StoredSessionKey) (calls : List (ℕ × Call)) (keys : List StoredSessionKey)
      → AreUnique keys
      → get id keys ≡ some k
      → IsInBudget k
      → AreOther id calls
      → StaysWithin k (run x keccak session_key_address id calls (keys, [])).1
  run-StaysWithin k calls keys unique stored budget others =
      let start = at_first k budget in
      (run-IsTracked k calls keys []
        (record {
          unique = unique;
          after = λ j is.
              let same : ◌≡◌ {A = Option StoredSessionKey} (some k) (some j) = sym stored ∙ is in
              let one : k ≡ j = ground arith in subst (λ i. IsAfter k i []) one start;
          within = IsAfter-StaysWithin k k [] start;
        })
        others).within
