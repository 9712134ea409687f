-- ===== src/Session/Manager/Outcome.antt =====
-- SessionKeyManager.ts: what one call does to the stored keys.
use connect_lib.Base.{
  ℕ, ◌/◌, ◌≡◌, ◌≤◌, ◌⊎◌, refl, sym, subst, inl, inr, true, false, none, some, List, arith,
  Option-cases, Bool-cases,
}
use connect_lib.Base.Bytes.{Bytes}
use connect_lib.Base.Hex.{is_hex_of}
use connect_lib.Base.Text.{Text}
use connect_lib.Session.Types.{
  SessionKeyRail, Mode, same_mode, SessionKeyTransaction, StoredSessionKey, SessionKeyStatus,
  SessionKeyError, OutOfScope, Checked, passed, thrown,
}
use connect_lib.Session.Passed.{>>=-eq-passed, refuse_when-eq-passed}
use connect_lib.Session.Token.{decode_scoped_token_spend}
use connect_lib.Session.Check.{check_scope_against_tx, period_usage_for}
use connect_lib.Session.Check.Accepts.{IsInScope, check_scope_against_tx-IsInScope}
use connect_lib.Session.Store.{get, save, add_usage, update_status, increment_usage}
use connect_lib.Session.Store.Get.{get-id, change-get}
use connect_lib.Session.Sign.{
  Vault, status_error, is_just_expired, marked, refuse_raw_digest, usage_of, in_scope,
  is_unauthorized, opened, Signing, sign_active, counted, handed_out, sign_stored, sign_raw,
  sign_with_session_key,
}
use connect_lib.Session.TypedData.{TypedDataRequest, typed_data_as_transaction, typed_data_digest}
use connect_lib.Session.Manager.{
  SignResult, OffchainPolicy, is_verified, when_verified, is_active, check_typed_data,
  sign_typed_data, sign_typed_data_with_session_key, sign_typed_data_verified, sign_verified,
}

-- Nothing is changed, but that a key past its expiry may be marked as expired.
abbrev pub IsLeft : ℕ → List StoredSessionKey → List StoredSessionKey → Type 0
IsLeft now keys keys' =
    (keys' ≡ keys)
    ⊎ ((k : StoredSessionKey) × (get k.id keys ≡ some k)
        × (k.scope.expiry ≤ now)
        × (keys' ≡ (update_status k.id SessionKeyStatus.expired keys).1))

-- A transaction is signed under a key that is active and has it in its scope, and is counted.
pub record IsCounted (id : Text) (tx : SessionKeyTransaction) (now_ms : ℕ)
    (keys keys' : List StoredSessionKey) : Type 0 where
  pub key : StoredSessionKey
  pub stored : get id keys ≡ some key
  pub active : is_active key.status ≡ true
  pub forbidden : List Text
  pub in_scope : IsInScope forbidden (now_ms / 1000) key.scope tx (usage_of key)
  pub counts : keys' ≡ save (add_usage now_ms tx in_scope.spend in_scope.period key) keys

-- What signing a transaction comes to.
abbrev pub Outcome : Text → SessionKeyTransaction → ℕ → List StoredSessionKey → SignResult → Type 0
Outcome id tx now_ms keys (thrown e, keys') = IsLeft (now_ms / 1000) keys keys'
Outcome id tx now_ms keys (passed s, keys') = IsCounted id tx now_ms keys keys'

pub marked-IsLeft :
    (id : Text) (k : StoredSessionKey) (now : ℕ) (keys : List StoredSessionKey)
    → get id keys ≡ some k
    → IsLeft now keys (marked k now keys)
unfolding marked is_just_expired
marked-IsLeft id k now keys stored = elim (Bool-cases (is_just_expired k now)) [
  | inl just ↦
      let named = get-id id keys k stored in
      let found : get k.id keys ≡ some k = subst (λ i. get i keys ≡ some k) (sym named) stored in
      let past : k.scope.expiry ≤ now = ground arith in
      rw (just, is_just_expired) (inr (k, found, past, refl))
  | inr other ↦ rw (other, is_just_expired) (inl refl)
]

pub in_scope-passed :
    {A : Type 0} (c : Checked OutOfScope A) (a : A) → in_scope c ≡ passed a → c ≡ passed a
in_scope-passed (thrown e) a h = cc
in_scope-passed (passed b) a h = cc

status_error-is_active :
    (k : StoredSessionKey) (now : ℕ) → status_error k now ≡ none → is_active k.status ≡ true
unfolding status_error
status_error-is_active k now h = ground arith

module _ (x : Vault) where
  sign_active_lem :
      (key : StoredSessionKey) (hash : Text) (tx : SessionKeyTransaction) (now : ℕ) (s : Signing)
      → sign_active x key hash tx now ≡ passed s
      → (v : IsInScope x.forbidden_methods now key.scope tx (usage_of key)) × (s.token_spend
          ≡ v.spend)
        × (s.period ≡ v.period)
  unfolding sign_active
  sign_active_lem key hash tx now s h =
      let (allowed, h₁) = refuse_when-eq-passed _ (is_unauthorized x key) _ h in
      let (left, checked, h₂) =
        >>=-eq-passed _
          (in_scope (check_scope_against_tx x.forbidden_methods now key.scope tx (usage_of key)))
          h₁ in
      let (secret, opens, h₃) = >>=-eq-passed _ (opened (x.decrypt key.key_pair)) h₂ in
      let (spend, decoded, h₄) =
        >>=-eq-passed _ (in_scope (decode_scoped_token_spend key.scope tx)) h₃ in
      let (period, windowed, h₅) =
        >>=-eq-passed _ (in_scope (period_usage_for now key.scope tx key.period_usage spend)) h₄ in
      let v =
        check_scope_against_tx-IsInScope x.forbidden_methods now key.scope tx (usage_of key) left
          (in_scope-passed _ left checked) in
      let spend_is = in_scope-passed _ spend decoded in
      let period_is = in_scope-passed _ period windowed in
      let same : spend ≡ v.spend = ground (arith, spend_is, v.spend_is) in
      let same_period : period ≡ v.period = ground (arith, rw same at period_is, v.period_is) in
      (v, ground (arith, h₅, same), ground (arith, h₅, same_period))

  counted_lem :
      (id : Text) (key : StoredSessionKey) (hash : Text) (tx : SessionKeyTransaction) (now_ms : ℕ)
      (keys : List StoredSessionKey)
      → get id keys ≡ some key
      → is_active key.status ≡ true
      → (c : Checked SessionKeyError Signing) → sign_active x key hash tx (now_ms / 1000) ≡ c
      → Outcome id tx now_ms keys (counted x key.id tx now_ms keys c)
  unfolding counted handed_out increment_usage
  counted_lem id key hash tx now_ms keys stored active (thrown e) h = inl refl
  counted_lem id key hash tx now_ms keys stored active (passed s) h =
      let (v, spend, period) = sign_active_lem key hash tx (now_ms / 1000) s h in
      let same = get-id id keys key stored in
      let found : get key.id keys ≡ some key =
        subst (λ i. get i keys ≡ some key) (sym same) stored in
      rw (change-get key.id (add_usage now_ms tx s.token_spend s.period) key keys found) (record {
        key = key;
        stored = stored;
        active = active;
        forbidden = x.forbidden_methods;
        in_scope = v;
        counts = rw (spend, period) refl;
      })

  pub sign_stored-Outcome :
      (id : Text) (key : StoredSessionKey) (hash : Text) (tx : SessionKeyTransaction) (now_ms : ℕ)
      (keys : List StoredSessionKey)
      → get id keys ≡ some key
      → Outcome id tx now_ms keys (sign_stored x key hash tx now_ms keys)
  unfolding sign_stored
  sign_stored-Outcome id key hash tx now_ms keys stored = elim (Bool-cases (is_hex_of 64 hash)) [
    | inr other ↦ rw other (inl refl)
    | inl hashed ↦ elim (Option-cases (status_error key (now_ms / 1000))) [
      | inr (e, is) ↦ rw (hashed, is) (marked-IsLeft id key (now_ms / 1000) keys stored)
      | inl fine ↦
          rw (hashed, fine)
            (counted_lem id key hash tx now_ms keys stored
              (status_error-is_active key (now_ms / 1000) fine)
              (sign_active x key hash tx (now_ms / 1000)) refl)
    ]
  ]

  sign_raw-Outcome :
      (id : Text) (key : StoredSessionKey) (hash : Text) (tx : SessionKeyTransaction) (now_ms : ℕ)
      (keys : List StoredSessionKey)
      → get id keys ≡ some key
      → Outcome id tx now_ms keys (sign_raw x key hash tx now_ms keys)
  unfolding sign_raw
  sign_raw-Outcome id key hash tx now_ms keys stored = go (refuse_raw_digest key) refl
    where
      go :
          (c : Checked SessionKeyError (Unit {0}))
          → refuse_raw_digest key ≡ c
          → Outcome id tx now_ms keys (sign_raw x key hash tx now_ms keys)
      go (thrown e) h = rw (h, sign_raw) (inl refl)
      go (passed tt) h = rw (h, sign_raw) (sign_stored-Outcome id key hash tx now_ms keys stored)

  pub sign_with_session_key-Outcome :
      (id hash : Text) (tx : SessionKeyTransaction) (now_ms : ℕ) (keys : List StoredSessionKey)
      → Outcome id tx now_ms keys (sign_with_session_key x id hash tx now_ms keys)
  unfolding sign_with_session_key
  sign_with_session_key-Outcome id hash tx now_ms keys = elim (Option-cases (get id keys)) [
    | inl missing ↦ rw (missing, sign_with_session_key) (inl refl)
    | inr (key, stored) ↦
        rw (stored, sign_with_session_key) (sign_raw-Outcome id key hash tx now_ms keys stored)
  ]

when_verified-Outcome :
    (id : Text) (tx : SessionKeyTransaction) (now_ms : ℕ) (p : OffchainPolicy)
    (k : StoredSessionKey) (keys : List StoredSessionKey) (next : SignResult)
    → get id keys ≡ some k
    → Outcome id tx now_ms keys next
    → Outcome id tx now_ms keys (when_verified p k (now_ms / 1000) keys next)
unfolding when_verified
when_verified-Outcome id tx now_ms p k keys next stored h =
    elim (Option-cases (status_error k (now_ms / 1000))) [
      | inr (e, is) ↦ rw (is, when_verified) (marked-IsLeft id k (now_ms / 1000) keys stored)
      | inl fine ↦ elim (Bool-cases (is_verified p k)) [
        | inl good ↦ rw (fine, when_verified, good) h
        | inr bad ↦ rw (fine, when_verified, bad) (inl refl)
      ]
    ]

module _ (x : Vault) (keccak : Bytes → Bytes) (session_key_address : Text → Text) where
  sign_typed_data-Outcome :
      (id : Text) (key : StoredSessionKey) (r : TypedDataRequest) (rail : SessionKeyRail)
      (now_ms : ℕ) (keys : List StoredSessionKey)
      → get id keys ≡ some key
      → Outcome id
          (typed_data_as_transaction r)
          now_ms
          keys
          (sign_typed_data x keccak session_key_address key r rail now_ms keys)
  unfolding sign_typed_data
  sign_typed_data-Outcome id key r rail now_ms keys stored =
      elim (Bool-cases (same_mode key.scope.mode Mode.eip7702)) [
        | inl delegated ↦ rw (delegated, sign_typed_data) (inl refl)
        | inr other ↦
            go other (check_typed_data session_key_address key r rail (now_ms / 1000)) refl
      ]
    where
      go :
          same_mode key.scope.mode Mode.eip7702 ≡ false
          → (c : Checked SessionKeyError (Unit {0}))
          → check_typed_data session_key_address key r rail (now_ms / 1000) ≡ c
          → Outcome id
              (typed_data_as_transaction r)
              now_ms
              keys
              (sign_typed_data x keccak session_key_address key r rail now_ms keys)
      go other (thrown e) h = rw (other, sign_typed_data, h) (inl refl)
      go other (passed tt) h =
          rw (other, sign_typed_data, h)
            (sign_stored-Outcome x id key (typed_data_digest keccak r) (typed_data_as_transaction r)
              now_ms keys stored)

  pub sign_typed_data_with_session_key-Outcome :
      (id : Text) (r : TypedDataRequest) (rail : SessionKeyRail) (now_ms : ℕ)
      (keys : List StoredSessionKey)
      → Outcome id
          (typed_data_as_transaction r)
          now_ms
          keys
          (sign_typed_data_with_session_key x keccak session_key_address id r rail now_ms keys)
  unfolding sign_typed_data_with_session_key
  sign_typed_data_with_session_key-Outcome id r rail now_ms keys =
      elim (Option-cases (get id keys)) [
        | inl missing ↦ rw (missing, sign_typed_data_with_session_key) (inl refl)
        | inr (key, stored) ↦
            rw (stored, sign_typed_data_with_session_key)
              (sign_typed_data-Outcome id key r rail now_ms keys stored)
      ]

  pub sign_typed_data_verified-Outcome :
      (id : Text) (p : OffchainPolicy) (r : TypedDataRequest) (rail : SessionKeyRail) (now_ms : ℕ)
      (keys : List StoredSessionKey)
      → Outcome id
          (typed_data_as_transaction r)
          now_ms
          keys
          (sign_typed_data_verified x keccak session_key_address id p r rail now_ms keys)
  unfolding sign_typed_data_verified
  sign_typed_data_verified-Outcome id p r rail now_ms keys = elim (Option-cases (get id keys)) [
    | inl missing ↦ rw (missing, sign_typed_data_verified) (inl refl)
    | inr (key, stored) ↦
        rw (stored, sign_typed_data_verified)
          (when_verified-Outcome id (typed_data_as_transaction r) now_ms p key keys _ stored
            (sign_typed_data-Outcome id key r rail now_ms keys stored))
  ]

  pub sign_verified-Outcome :
      (id : Text) (p : OffchainPolicy) (hash : Text) (tx : SessionKeyTransaction) (now_ms : ℕ)
      (keys : List StoredSessionKey)
      → Outcome id tx now_ms keys
          (sign_verified x keccak session_key_address id p hash tx now_ms keys)
  unfolding sign_verified
  sign_verified-Outcome id p hash tx now_ms keys = elim (Bool-cases (is_hex_of 64 hash)) [
    | inr other ↦ rw other (inl refl)
    | inl hashed ↦ elim (Option-cases (get id keys)) [
      | inl missing ↦ rw (hashed, missing) (inl refl)
      | inr (key, stored) ↦
          rw (hashed, stored)
            (when_verified-Outcome id tx now_ms p key keys _ stored
              (sign_raw-Outcome x id key hash tx now_ms keys stored))
    ]
  ]
