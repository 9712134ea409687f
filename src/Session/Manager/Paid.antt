-- ===== src/Session/Manager/Paid.antt =====
-- SessionKeyManager.ts: what a signature on typed data pays.
use connect_lib.Base.{
  ℕ, ◌+◌, ◌/◌, ◌≡◌, ◌≤◌, ◌<◌, ◌⊎◌, refl, subst, inl, inr, true, not, ◌&&◌, some, List, [], ◌++◌,
  drop, arith, leb, ltb, is_some, Option-cases,
}
use connect_lib.Base.Bytes.{Bytes}
use connect_lib.Base.Sets.{has}
use connect_lib.Base.Text.{Text, codes, to_lower_case}
use connect_lib.Units.{value_from}
use connect_lib.Session.Types.{
  SessionKeyRail, session_rail_eq, StoredSessionKey, SessionKeyError, Checked, passed, thrown,
}
use connect_lib.Session.Passed.{refuse_when-eq-passed, refuse_when-passed}
use connect_lib.Session.Number.{entry_of, lists, same_address}
use connect_lib.Session.Token.{accumulated_token_spend}
use connect_lib.Session.Check.{recipient_of, per_tx_limit}
use connect_lib.Session.Check.Accepts.{IsAffordable, IsUpTo}
use connect_lib.Session.Store.{get}
use connect_lib.Session.Sign.{Vault, usage_of}
use connect_lib.Session.TypedData.{TypedDataRequest, is_valid_request, typed_data_as_transaction}
use connect_lib.Session.TypedData.Transfer.{decode_scoped_token_spend-typed_data}
use connect_lib.Session.Manager.{
  is_eip3009, check_typed_data, sign_typed_data, sign_typed_data_with_session_key, is_active,
}
use connect_lib.Session.Manager.Outcome.{IsCounted, sign_typed_data_with_session_key-Outcome}

-- What the key allows of a transfer that it signs.
pub record IsPaid (session_key_address : Text → Text) (k : StoredSessionKey) (r : TypedDataRequest)
    (rail : SessionKeyRail) (now : ℕ) : Type 0 where
  pub token : Text
  pub allowance : ℕ
  pub allowed : entry_of r.verifying_contract k.scope.token_allowances ≡ some (token, allowance)
  pub affordable :
      accumulated_token_spend k.accumulated_token_spends token + value_from 0 r.value ≤ allowance
  pub per_tx :
      IsUpTo (per_tx_limit (entry_of token k.scope.token_max_per_tx)) (value_from 0 r.value)
  pub recipient :
      (k.scope.allowed_recipients ≡ [])
      ⊎ (lists (codes "0x" ++ to_lower_case (drop 2 r.to)) k.scope.allowed_recipients ≡ true)
  pub own : same_address r.from (session_key_address k.key_pair.public_key) ≡ true
  pub of_rail : has rail k.scope.rails ≡ true
  pub eip3009 : is_eip3009 rail ≡ true
  pub live : (now < value_from 0 r.valid_before) × (value_from 0 r.valid_before ≤ k.scope.expiry)
  pub begins : value_from 0 r.valid_after < value_from 0 r.valid_before

check_typed_data_lem :
    (session_key_address : Text → Text) (k : StoredSessionKey) (r : TypedDataRequest)
    (rail : SessionKeyRail) (now : ℕ)
    → check_typed_data session_key_address k r rail now ≡ passed tt
    → (is_valid_request r ≡ true)
      × (is_eip3009 rail ≡ true)
      × (has rail k.scope.rails ≡ true)
      × (is_some (entry_of r.verifying_contract k.scope.token_allowances) ≡ true)
      × (same_address r.from (session_key_address k.key_pair.public_key) ≡ true)
      × (now < value_from 0 r.valid_before)
      × (value_from 0 r.valid_before ≤ k.scope.expiry)
      × (value_from 0 r.valid_after < value_from 0 r.valid_before)
unfolding check_typed_data
check_typed_data_lem address k r rail now h =
    let (a, h₁) = refuse_when-eq-passed _ (not (is_valid_request r)) _ h in
    let (b, h₂) = refuse_when-eq-passed _ (not (is_eip3009 rail && has rail k.scope.rails)) _ h₁ in
    let (c, h₃) =
      refuse_when-eq-passed _
        (not (is_some (entry_of r.verifying_contract k.scope.token_allowances))) _ h₂ in
    let (d, h₄) =
      refuse_when-eq-passed _ (not (same_address r.from (address k.key_pair.public_key))) _ h₃ in
    let (e, h₅) = refuse_when-eq-passed _ (leb (value_from 0 r.valid_before) now) _ h₄ in
    let (f, h₆) = refuse_when-eq-passed _ (ltb k.scope.expiry (value_from 0 r.valid_before)) _ h₅ in
    let g =
      refuse_when-passed (leb (value_from 0 r.valid_before) (value_from 0 r.valid_after)) _ h₆ in
    (
      ground arith,
      ground arith,
      ground arith,
      ground arith,
      ground arith,
      ground arith,
      ground arith,
      ground arith,
    )

spent_lem :
    (address : Text → Text) (id : Text) (r : TypedDataRequest) (now_ms : ℕ)
    (keys keys' : List StoredSessionKey) (token : Text) (allowance : ℕ)
    (c : IsCounted id (typed_data_as_transaction r) now_ms keys keys')
    → is_valid_request r ≡ true
    → entry_of r.verifying_contract c.key.scope.token_allowances ≡ some (token, allowance)
    → c.in_scope.spend
      ≡ some (record {
        token_address = token;
        amount = value_from 0 r.value;
        allowance = allowance;
        recipient = codes "0x" ++ to_lower_case (drop 2 r.to);
      })
spent_lem address id r now_ms keys keys' token allowance c ok found =
    let decoded = decode_scoped_token_spend-typed_data c.key.scope r token allowance ok found in
    ground (arith, decoded, c.in_scope.spend_is)

paid_lem :
    (address : Text → Text) (id : Text) (r : TypedDataRequest) (rail : SessionKeyRail) (now_ms : ℕ)
    (keys keys' : List StoredSessionKey)
    (c : IsCounted id (typed_data_as_transaction r) now_ms keys keys')
    → check_typed_data address c.key r rail (now_ms / 1000) ≡ passed tt
    → IsPaid address c.key r rail (now_ms / 1000)
unfolding recipient_of
paid_lem address id r rail now_ms keys keys' c checked =
    let k = c.key in
    let (ok, eip3009, of_rail, has_entry, own, live, ends, begins) =
      check_typed_data_lem address k r rail (now_ms / 1000) checked in
    elim (Option-cases (entry_of r.verifying_contract k.scope.token_allowances)) [
      | inl missing ↦ absurd (ground arith)
      | inr ((token, allowance), found) ↦
          let spent = spent_lem address id r now_ms keys keys' token allowance c ok found in
          let affordable = subst (IsAffordable k.scope (usage_of k)) spent c.in_scope.affordable in
          record {
            token = token;
            allowance = allowance;
            allowed = found;
            affordable = affordable.1;
            per_tx = affordable.0;
            recipient =
                subst
                  (λ s.
                    (k.scope.allowed_recipients ≡ [])
                    ⊎ (lists (recipient_of (typed_data_as_transaction r) s)
                          k.scope.allowed_recipients
                        ≡ true))
                  spent c.in_scope.recipient;
            own = own;
            of_rail = of_rail;
            eip3009 = eip3009;
            live = (live, ends);
            begins = begins;
          }
    ]

module _ (x : Vault) (keccak : Bytes → Bytes) (session_key_address : Text → Text) where
  checked_lem :
      (id : Text) (r : TypedDataRequest) (rail : SessionKeyRail) (now_ms : ℕ) (k : StoredSessionKey)
      (keys keys' : List StoredSessionKey) (signature : Text)
      → get id keys ≡ some k
      → sign_typed_data_with_session_key x keccak session_key_address id r rail now_ms keys
        ≡ (passed signature, keys')
      → check_typed_data session_key_address k r rail (now_ms / 1000) ≡ passed tt
  unfolding sign_typed_data_with_session_key sign_typed_data
  checked_lem id r rail now_ms k keys keys' signature stored h =
      go (check_typed_data session_key_address k r rail (now_ms / 1000)) refl
    where
      go :
          (c : Checked SessionKeyError (Unit {0}))
          → check_typed_data session_key_address k r rail (now_ms / 1000) ≡ c
          → check_typed_data session_key_address k r rail (now_ms / 1000) ≡ passed tt
      go (passed _) is = is
      go (thrown e) is = absurd (ground (arith, stored, is, h))

  -- A signature on typed data is one of a stored key that is active: the transfer is the key's own,
  -- on a rail of its scope, within its lifetime and the lifetime of the key, to a recipient that
  -- the scope allows, and its value, with what was spent of the token, is within the allowance.
  pub sign_typed_data_with_session_key-IsPaid :
      (id : Text) (r : TypedDataRequest) (rail : SessionKeyRail) (now_ms : ℕ)
      (keys keys' : List StoredSessionKey) (signature : Text)
      → sign_typed_data_with_session_key x keccak session_key_address id r rail now_ms keys
        ≡ (passed signature, keys')
      → (k : StoredSessionKey) × (get id keys ≡ some k)
        × (is_active k.status ≡ true)
        × IsPaid session_key_address k r rail (now_ms / 1000)
  sign_typed_data_with_session_key-IsPaid id r rail now_ms keys keys' signature h =
      let c : IsCounted id (typed_data_as_transaction r) now_ms keys keys' = rw h at (
        sign_typed_data_with_session_key-Outcome x keccak session_key_address id r rail now_ms
          keys) in
      let checked = checked_lem id r rail now_ms c.key keys keys' signature c.stored h in
      (
        c.key,
        c.stored,
        c.active,
        paid_lem session_key_address id r rail now_ms keys keys' c checked,
      )
