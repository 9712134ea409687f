-- ===== src/Session/Manager/Run/Steps.antt =====
-- SessionKeyManager.ts: what a call can do to the key of one id.
use connect_lib.Base.{
  ℕ, ◌/◌, ◌≡◌, ◌⊎◌, refl, sym, ◌∙◌, ap, subst, inl, inr, false, Option, some, List, [], ◌∷◌, arith,
  Bool-cases, Option-cases,
}
use connect_lib.Base.Bytes.{Bytes}
use connect_lib.Base.Text.{Text, text_eq, text_eq_iff}
use connect_lib.Session.Types.{
  SessionKeyTransaction, StoredSessionKey, SessionKeyStatus, SessionKeyError, SignedAuthorization,
  EncryptedKeyPair, Checked, passed, thrown,
}
use connect_lib.Session.Store.{get, add_usage, change, update_status}
use connect_lib.Session.Store.Get.{get-id, get-save}
use connect_lib.Session.Sign.{Vault, status_error}
use connect_lib.Session.Create.{
  SessionKeyConfig, PartialScope, create_session_key, saved_when, check_new, new_key, resolve_scope,
}
use connect_lib.Session.Manager.{
  SignResult, check_authorization, set_authorization, revoke_session, get_session_bundle,
}
use connect_lib.Session.Manager.Outcome.{
  IsLeft, IsCounted, Outcome, sign_with_session_key-Outcome,
  sign_typed_data_with_session_key-Outcome, sign_typed_data_verified-Outcome, sign_verified-Outcome,
  marked-IsLeft,
}
use connect_lib.Session.Manager.Redeemed.{sign_delegation_redemption-Outcome}
use connect_lib.Session.Manager.Kept.{
  Keeps, Keeps-refl, IsLeft-Keeps, revoke_session-Keeps, set_authorization-Keeps,
}
use connect_lib.Session.Manager.Refresh.{
  AreUnique, save-AreUnique, refresh_cache-Keeps, refresh_cache-AreUnique,
}
use connect_lib.Session.Manager.Run.{
  SignCall, Call, State, call_id, call_transaction, answer, logged, step, IsOther,
}

-- The key of `id` is kept and nothing is signed under it, or one transaction is signed and counted.
abbrev pub Moves : Text → State → State → Type 0
Moves id (keys, log) (keys', log') =
    AreUnique keys'
    × ((Keeps id keys keys' × (log' ≡ log))
        ⊎ ((tx : SessionKeyTransaction) × (now : ℕ) × IsCounted id tx now keys keys'
            × (log' ≡ tx ∷ log)))

update_status-AreUnique :
    (j : Text) (s : SessionKeyStatus) (keys : List StoredSessionKey)
    → AreUnique keys
    → AreUnique (update_status j s keys).1
unfolding update_status change
update_status-AreUnique j s keys h = elim (Option-cases (get j keys)) [
  | inl missing ↦ rw (missing, change) h
  | inr (k, stored) ↦ rw (stored, change) (save-AreUnique (record k { status = s }) keys h)
]

IsLeft-AreUnique :
    (now : ℕ) (keys keys' : List StoredSessionKey)
    → IsLeft now keys keys'
    → AreUnique keys
    → AreUnique keys'
IsLeft-AreUnique now keys keys' (inl same) h = rw same h
IsLeft-AreUnique now keys keys' (inr (k, found, past, same)) h =
    rw same (update_status-AreUnique k.id SessionKeyStatus.expired keys h)

-- A key counted under another id leaves that of `id`.
counted-Keeps :
    (id j : Text) (tx : SessionKeyTransaction) (now : ℕ) (keys keys' : List StoredSessionKey)
    → text_eq j id ≡ false
    → IsCounted j tx now keys keys'
    → Keeps id keys keys'
unfolding add_usage
counted-Keeps id j tx now keys keys' apart c k' h =
    let named = get-id j keys c.key c.stored in
    let other : text_eq c.key.id id ≡ false = ap (λ i. text_eq i id) named ∙ apart in
    let f = add_usage now tx c.in_scope.spend c.in_scope.period c.key in
    let there : get id keys ≡ some k' =
      sym (ap (get id) c.counts ∙ get-save id f keys ∙ (rw other refl)) ∙ h in
    Keeps-refl id keys k' there

logged-Moves :
    (id j : Text) (tx : SessionKeyTransaction) (now : ℕ) (keys : List StoredSessionKey)
    (log : List SessionKeyTransaction) (r : SignResult)
    → AreUnique keys
    → Outcome j tx now keys r
    → Moves id (keys, log) (logged id j tx log r)
logged-Moves id j tx now keys log (thrown e, keys') h left = (
  IsLeft-AreUnique (now / 1000) keys keys' left h,
  inl (IsLeft-Keeps id (now / 1000) keys keys' left, refl),
)
logged-Moves id j tx now keys log (passed s, keys') h c =
    let f = add_usage now tx c.in_scope.spend c.in_scope.period c.key in
    let unique : AreUnique keys' = rw c.counts (save-AreUnique f keys h) in
    elim (Bool-cases (text_eq j id)) [
      | inr other ↦ (unique, inl (counted-Keeps id j tx now keys keys' other c, rw other refl))
      | inl this ↦
          let same : j ≡ id = (text_eq_iff j id).0 this in
          (unique, inr (tx, now, subst (λ i. IsCounted i tx now keys keys') same c, rw this refl))
    ]

set_authorization-AreUnique :
    (j : Text) (a : SignedAuthorization) (keys : List StoredSessionKey)
    → AreUnique keys
    → AreUnique (set_authorization j a keys).1
unfolding set_authorization
set_authorization-AreUnique j a keys h = elim (Option-cases (get j keys)) [
  | inl missing ↦ rw (missing, set_authorization) h
  | inr (k, stored) ↦ go k stored (check_authorization k a) refl
]
  where
    go :
        (k : StoredSessionKey)
        → get j keys ≡ some k
        → (c : Checked SessionKeyError (Unit {0})) → check_authorization k a ≡ c
        → AreUnique (set_authorization j a keys).1
    go k stored (thrown e) is = rw (stored, set_authorization, is) h
    go k stored (passed _) is =
        rw (stored, set_authorization, is) (save-AreUnique (record k { authorization = a }) keys h)

get_session_bundle-IsLeft :
    (x : Vault) (j : Text) (now : ℕ) (keys : List StoredSessionKey)
    → IsLeft now keys (get_session_bundle x j now keys).1
unfolding get_session_bundle
get_session_bundle-IsLeft x j now keys = elim (Option-cases (get j keys)) [
  | inl missing ↦ rw (missing, get_session_bundle) (inl refl)
  | inr (k, stored) ↦ elim (Option-cases (status_error k now)) [
    | inl fine ↦ rw (stored, get_session_bundle, fine) (inl refl)
    | inr (e, is) ↦ rw (stored, get_session_bundle, is) (marked-IsLeft j k now keys stored)
  ]
]

create_session_key-Moves :
    (id j : Text) (config : SessionKeyConfig) (s : PartialScope) (signer : Option Text)
    (pair : EncryptedKeyPair) (now : ℕ) (keys : List StoredSessionKey)
    → text_eq j id ≡ false
    → AreUnique keys
    → AreUnique (create_session_key config s signer pair j now keys).1
      × Keeps id keys (create_session_key config s signer pair j now keys).1
unfolding create_session_key saved_when new_key
create_session_key-Moves id j config s signer pair now keys apart h =
    go (check_new config (resolve_scope config now s) signer now) refl
  where
    go :
        (c : Checked SessionKeyError (Unit {0}))
        → check_new config (resolve_scope config now s) signer now ≡ c
        → AreUnique (create_session_key config s signer pair j now keys).1
          × Keeps id keys (create_session_key config s signer pair j now keys).1
    go (thrown e) is = rw is (h, Keeps-refl id keys)
    go (passed _) is =
        let k = new_key (resolve_scope config now s) signer pair j now in
        rw is (
          save-AreUnique k keys h,
          λ k' found. Keeps-refl id keys k' (sym (get-save id k keys ∙ (rw apart refl)) ∙ found),
        )

Keeps-empty : (id : Text) (keys : List StoredSessionKey) → Keeps id keys []
unfolding get
Keeps-empty id keys k' found = absurd (ground arith)

module _ (x : Vault) (keccak : Bytes → Bytes) (session_key_address : Text → Text) where
  pub answer-Outcome :
      (now : ℕ) (c : SignCall) (keys : List StoredSessionKey)
      → Outcome
          (call_id c)
          (call_transaction c)
          now
          keys
          (answer x keccak session_key_address now c keys)
  unfolding answer
  answer-Outcome now (SignCall.raw j hash tx) keys =
      sign_with_session_key-Outcome x j hash tx now keys
  answer-Outcome now (SignCall.verified j p hash tx) keys =
      sign_verified-Outcome x keccak session_key_address j p hash tx now keys
  answer-Outcome now (SignCall.typed j r rail) keys =
      sign_typed_data_with_session_key-Outcome x keccak session_key_address j r rail now keys
  answer-Outcome now (SignCall.typed_verified j p r rail) keys =
      sign_typed_data_verified-Outcome x keccak session_key_address j p r rail now keys
  answer-Outcome now (SignCall.redeems j digest outer e) keys =
      sign_delegation_redemption-Outcome keccak x j digest outer e now keys

module _ (x : Vault) (keccak : Bytes → Bytes) (session_key_address : Text → Text) (id : Text) where
  pub step-Moves :
      (now : ℕ) (call : Call) (keys : List StoredSessionKey) (log : List SessionKeyTransaction)
      → AreUnique keys
      → IsOther id call
      → Moves id (keys, log) (step x keccak session_key_address id now call (keys, log))
  unfolding step revoke_session
  step-Moves now (Call.signs c) keys log h other =
      logged-Moves id (call_id c) (call_transaction c) now keys log _ h
        (answer-Outcome x keccak session_key_address now c keys)
  step-Moves now (Call.authorizes j a) keys log h other =
      (set_authorization-AreUnique j a keys h, inl (set_authorization-Keeps id j a keys, refl))
  step-Moves now (Call.creates config s signer pair j) keys log h other =
      let (unique, keeps) = create_session_key-Moves id j config s signer pair now keys other h in
      (unique, inl (keeps, refl))
  step-Moves now (Call.revokes j) keys log h other = (
    update_status-AreUnique j SessionKeyStatus.revoked keys h,
    inl (revoke_session-Keeps id j keys, refl),
  )
  step-Moves now (Call.exports j) keys log h other =
      let left = get_session_bundle-IsLeft x j (now / 1000) keys in
      (
        IsLeft-AreUnique (now / 1000) keys _ left h,
        inl (IsLeft-Keeps id (now / 1000) keys _ left, refl),
      )
  step-Moves now Call.refreshes keys log h other = (
    refresh_cache-AreUnique (now / 1000) keys h,
    inl (refresh_cache-Keeps id (now / 1000) keys h, refl),
  )
  step-Moves now Call.clears keys log h other = (tt, inl (Keeps-empty id keys, refl))
