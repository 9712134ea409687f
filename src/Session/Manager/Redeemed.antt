-- ===== src/Session/Manager/Redeemed.antt =====
-- SessionKeyManager.ts: what `signDelegationRedemption` comes to.
use connect_lib.Base.{
  ℕ, ◌/◌, ◌≡◌, refl, sym, subst, inl, inr, Option, none, some, List, true, arith, not, ◌||◌, ◌&&◌,
  Option-cases,
}
use connect_lib.Base.Bytes.{Bytes}
use connect_lib.Base.Sets.{has}
use connect_lib.Base.Text.{Text}
use connect_lib.Session.Types.{
  SessionKeyRail, session_rail_eq, SessionKeyTransaction, StoredSessionKey, SessionKeyError,
  Checked, passed, thrown,
}
use connect_lib.Session.Number.{big_int, same_address, is_filled}
use connect_lib.Session.Passed.{>>=-eq-passed, refuse_when-eq-passed}
use connect_lib.Session.Store.{get}
use connect_lib.Session.Sign.{Vault, status_error}
use connect_lib.Session.Delegation.{
  FrameworkExecution, delegation_manager, redemption_transaction, is_zero, is_chain, redemption_for,
  check_redemption, redeem, sign_delegation_redemption,
}
use connect_lib.Session.Manager.Outcome.{Outcome, marked-IsLeft, sign_stored-Outcome}

is_chain-eq-true : (c : Option ℕ) (n : ℕ) → is_chain c n ≡ true → c ≡ some n
unfolding is_chain
is_chain-eq-true none n h = cc
is_chain-eq-true (some c) n h = ground (arith, h)

module _ (keccak : Bytes → Bytes) where
  -- The outer transaction of a redemption that passes is on the delegation's chain.
  check_redemption-chain :
      (k : StoredSessionKey) (outer : SessionKeyTransaction) (e : FrameworkExecution) (n : ℕ)
      → check_redemption keccak k outer e ≡ passed n
      → outer.chain_id ≡ some n
  unfolding check_redemption
  check_redemption-chain k outer e n h =
      let (rails, h₁) =
        refuse_when-eq-passed _
          (is_filled k.scope.rails && not (has SessionKeyRail.transfer k.scope.rails)) _ h in
      let ((chain_id, call), made, h₂) = >>=-eq-passed _ (redemption_for keccak k e) h₁ in
      let (matches, h₃) =
        refuse_when-eq-passed _
          (not (is_chain outer.chain_id chain_id)
            || (not (same_address outer.to delegation_manager)
                || (not (is_zero (big_int outer.value))
                    || not (same_address outer.data_field call))))
          _ h₂ in
      let same : chain_id ≡ n = ground (arith, h₃) in
      subst (λ m. outer.chain_id ≡ some m) same
        (is_chain-eq-true outer.chain_id chain_id (ground (arith, matches)))

  module _ (x : Vault) where
    redeem-Outcome :
        (id : Text) (k : StoredSessionKey) (digest : Text) (outer : SessionKeyTransaction)
        (e : FrameworkExecution) (now_ms : ℕ) (keys : List StoredSessionKey)
        → get id keys ≡ some k
        → Outcome id
            (redemption_transaction outer.chain_id outer e)
            now_ms
            keys
            (redeem keccak x k digest outer e now_ms keys)
    unfolding redeem
    redeem-Outcome id k digest outer e now_ms keys stored =
        go (check_redemption keccak k outer e) refl
      where
        go :
            (c : Checked SessionKeyError ℕ)
            → check_redemption keccak k outer e ≡ c
            → Outcome id
                (redemption_transaction outer.chain_id outer e)
                now_ms
                keys
                (redeem keccak x k digest outer e now_ms keys)
        go (thrown error) h = rw (h, redeem) (inl refl)
        go (passed n) h =
            let on : outer.chain_id ≡ some n = check_redemption-chain k outer e n h in
            subst
              (λ (c : Option ℕ).
                Outcome id (redemption_transaction c outer e) now_ms keys
                  (redeem keccak x k digest outer e now_ms keys))
              (sym on)
              (rw (h, redeem)
                (sign_stored-Outcome x id k digest (redemption_transaction (some n) outer e) now_ms
                  keys stored))

    pub sign_delegation_redemption-Outcome :
        (id digest : Text) (outer : SessionKeyTransaction) (e : FrameworkExecution) (now_ms : ℕ)
        (keys : List StoredSessionKey)
        → Outcome id
            (redemption_transaction outer.chain_id outer e)
            now_ms
            keys
            (sign_delegation_redemption keccak x id digest outer e now_ms keys)
    unfolding sign_delegation_redemption
    sign_delegation_redemption-Outcome id digest outer e now_ms keys =
        elim (Option-cases (get id keys)) [
          | inl missing ↦ rw (missing, sign_delegation_redemption) (inl refl)
          | inr (k, stored) ↦ elim (Option-cases (status_error k (now_ms / 1000))) [
            | inr (error, is) ↦
                rw (stored, sign_delegation_redemption, is)
                  (marked-IsLeft id k (now_ms / 1000) keys stored)
            | inl fine ↦
                rw (stored, sign_delegation_redemption, fine)
                  (redeem-Outcome id k digest outer e now_ms keys stored)
          ]
        ]
