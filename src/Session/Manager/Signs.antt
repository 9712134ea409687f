-- ===== src/Session/Manager/Signs.antt =====
-- SessionKeyManager.ts: `checkSessionScope` and the signing of what it lets through.
use connect_lib.Base.{
  ℕ, ◌/◌, ◌≡◌, refl, sym, ◌∙◌, subst, inl, inr, true, false, Option, none, some, List, [], arith,
  Option-cases, drop,
}
use connect_lib.Base.Dict.{Dict, lookup}
use connect_lib.Base.Hex.{is_hex_of}
use connect_lib.Base.Text.{Text}
use connect_lib.Session.Types.{
  PeriodUsage, SessionKeyScope, SessionKeyTransaction, StoredSessionKey, Remaining, passed,
}
use connect_lib.Session.Passed.{>>=-ext}
use connect_lib.Session.Number.{entry_of}
use connect_lib.Session.Token.{TokenSpend, decode_scoped_token_spend}
use connect_lib.Session.Check.{
  Usage, period_asset, period_spend, period_usage_for, check_period, check_spending, check_amounts,
  check_limits, check_scope_against_tx,
}
use connect_lib.Session.Check.Accepts.{check_scope_against_tx-IsInScope}
use connect_lib.Session.Manager.Outcome.{in_scope-passed}
use connect_lib.Session.Store.{get, save, add_usage, increment_usage}
use connect_lib.Session.Store.Get.{get-id, change-get}
use connect_lib.Session.Sign.{
  Vault, status_error, refuse_raw_digest, usage_of, is_unauthorized, opened, Signing, sign_active,
  counted, handed_out, sign_stored, sign_raw, sign_with_session_key, check_stored,
  check_session_scope, signature_text,
}

-- Without period limits, no transaction counts against a window.
period_usage_for-unlimited :
    (now : ℕ) (scope : SessionKeyScope) (tx : SessionKeyTransaction) (usage : Dict Text PeriodUsage)
    (spend : Option TokenSpend)
    → scope.period_limits ≡ []
    → period_usage_for now scope tx usage spend ≡ passed none
unfolding period_usage_for period_asset period_spend entry_of lookup
period_usage_for-unlimited now scope tx usage none h = rw h refl
period_usage_for-unlimited now scope tx usage (some s) h = rw h refl

check_spending-unlimited :
    (now : ℕ) (scope : SessionKeyScope) (tx : SessionKeyTransaction) (u : Usage)
    → scope.period_limits ≡ []
    → check_spending now scope tx u ≡ check_spending now scope tx (record u { periods = [] })
unfolding check_spending check_period
check_spending-unlimited now scope tx u h =
    >>=-ext (decode_scoped_token_spend scope tx) _ _ (λ spend.
      rw
        (
          period_usage_for-unlimited now scope tx u.periods spend h,
          period_usage_for-unlimited now scope tx [] spend h,
        )
        refl)

check_scope_against_tx-unlimited :
    (forbidden : List Text) (now : ℕ) (scope : SessionKeyScope) (tx : SessionKeyTransaction)
    (u : Usage)
    → scope.period_limits ≡ []
    → check_scope_against_tx forbidden now scope tx u
      ≡ check_scope_against_tx forbidden now scope tx (record u { periods = [] })
unfolding check_scope_against_tx check_amounts check_limits
check_scope_against_tx-unlimited forbidden now scope tx u h =
    rw (check_spending-unlimited now scope tx u h) refl

-- A key whose owner has authorized it and whose secret opens.
pub record IsReady (x : Vault) (k : StoredSessionKey) : Type 0 where
  pub raw : refuse_raw_digest k ≡ passed tt
  pub authorized : is_unauthorized x k ≡ false
  pub secret : Text
  pub opens : x.decrypt k.key_pair ≡ some secret

module _ (x : Vault) where
  sign_active-passed :
      (k : StoredSessionKey) (hash : Text) (tx : SessionKeyTransaction) (now : ℕ) (left : Remaining)
      → IsReady x k
      → check_scope_against_tx x.forbidden_methods now k.scope tx (usage_of k) ≡ passed left
      → (s : Signing) × (sign_active x k hash tx now ≡ passed s)
  unfolding sign_active opened
  sign_active-passed k hash tx now left ready checked =
      let v =
        check_scope_against_tx-IsInScope x.forbidden_methods now k.scope tx (usage_of k) left
          checked in
      (
        record {
          signature = signature_text (x.sign (drop 2 hash) (drop 2 ready.secret));
          token_spend = v.spend;
          period = v.period;
        },
        rw (ready.authorized, checked, ready.opens, opened, v.spend_is, v.period_is) refl,
      )

  check_stored_lem :
      (k : StoredSessionKey) (tx : SessionKeyTransaction) (now : ℕ) (left : Remaining)
      → k.scope.period_limits ≡ []
      → check_stored x k tx now ≡ passed left
      → (status_error k now ≡ none)
        × (check_scope_against_tx x.forbidden_methods now k.scope tx (usage_of k) ≡ passed left)
  unfolding check_stored
  check_stored_lem k tx now left unlimited h = elim (Option-cases (status_error k now)) [
    | inr (e, is) ↦ absurd (ground (arith, is, h))
    | inl fine ↦
        let checked = in_scope-passed _ left (rw (fine, check_stored) at h) in
        (
          fine,
          check_scope_against_tx-unlimited x.forbidden_methods now k.scope tx (usage_of k) unlimited
              ∙ checked,
        )
  ]

  sign_stored-passed :
      (k : StoredSessionKey) (hash : Text) (tx : SessionKeyTransaction) (now_ms : ℕ)
      (keys : List StoredSessionKey) (s : Signing)
      → get k.id keys ≡ some k
      → is_hex_of 64 hash ≡ true
      → status_error k (now_ms / 1000) ≡ none
      → sign_active x k hash tx (now_ms / 1000) ≡ passed s
      → sign_stored x k hash tx now_ms keys
        ≡ (passed s.signature, save (add_usage now_ms tx s.token_spend s.period k) keys)
  unfolding sign_stored counted increment_usage handed_out
  sign_stored-passed k hash tx now_ms keys s found hashed fine signed =
      rw
        (
          hashed,
          fine,
          signed,
          change-get k.id (add_usage now_ms tx s.token_spend s.period) k keys found,
        )
        refl

  -- Where a scope has no period limits, checking a transaction tells what signing it does: a key
  -- that is ready to sign raw digests signs every transaction that `checkSessionScope` lets through.
  pub check_session_scope-signs :
      (id hash : Text) (tx : SessionKeyTransaction) (now_ms : ℕ) (keys : List StoredSessionKey)
      (k : StoredSessionKey) (left : Remaining)
      → get id keys ≡ some k
      → k.scope.period_limits ≡ []
      → IsReady x k
      → is_hex_of 64 hash ≡ true
      → check_session_scope x id tx (now_ms / 1000) keys ≡ passed left
      → (signature : Text) × (keys' : List StoredSessionKey) × (sign_with_session_key x id hash tx
            now_ms keys
          ≡ (passed signature, keys'))
  unfolding check_session_scope sign_with_session_key sign_raw
  check_session_scope-signs id hash tx now_ms keys k left stored unlimited ready hashed h =
      let h₁ : check_stored x k tx (now_ms / 1000) ≡ passed left =
        rw (stored, check_session_scope) at h in
      let (fine, checked) = check_stored_lem k tx (now_ms / 1000) left unlimited h₁ in
      let (s, signed) = sign_active-passed k hash tx (now_ms / 1000) left ready checked in
      let named = get-id id keys k stored in
      let found : get k.id keys ≡ some k = subst (λ i. get i keys ≡ some k) (sym named) stored in
      (
        s.signature,
        save (add_usage now_ms tx s.token_spend s.period k) keys,
        rw (stored, sign_with_session_key, ready.raw, sign_raw)
            (sign_stored-passed k hash tx now_ms keys s found hashed fine signed),
      )
