-- ===== src/Voucher/Manager/Updates.antt =====
-- What one call of the key manager does to the stored keys, seen through `find_key`.
use connect_lib.Base.{
  ℕ, ◌≡◌, refl, true, false, Option, none, some, List, [], ◌∷◌, ◌++◌, arith, inl, inr, Bool-cases,
  Option-cases, sym, ◌∙◌,
}
use connect_lib.Base.Text.{Text, text_eq, text_eq_iff}
use connect_lib.Base.{◌⊎◌, ◌<◌, ◌≤◌, ltb, ◌==◌, ◌||◌}
use connect_lib.Voucher.Message.{u64_max}
use connect_lib.Voucher.Manager.Signs.{Unseals}
use connect_lib.Base.Bytes.{Bytes}
use connect_lib.Voucher.Types.{
  KeyStatus, StoredKey, Failure, Result, ok, err, Crypto, ManagerConfig, ChannelVoucherPolicy,
  ChannelBinding,
}
use connect_lib.Voucher.Manager.{
  SignedVoucher, bound, pda_input, sealed, unseal, sign_voucher, sign_change, bind_channel,
  bind_change, create, new_key, check_policy, find_key, put_key, update, saved, revoke,
}
use connect_lib.Voucher.Manager.Found.{
  find_key-id, find_key-put_key, find_key-append_new, find_key-append_old,
}

-- A call on a stored key that fails changes nothing; one that works puts the changed key.
pub data Updates {T : Type 0} (id : Text) (change : StoredKey → Result (T × StoredKey))
    (keys : List StoredKey) : Result T × List StoredKey → Type 0 where
  fails :
      {u : Result T × List StoredKey} (e : Failure) → u ≡ (err e, keys) → Updates id change keys u
  works :
      {u : Result T × List StoredKey} (k k' : StoredKey) (t : T)
      → find_key id keys ≡ some k
      → change k ≡ ok (t, k')
      → u ≡ (ok t, put_key id k' keys)
      → Updates id change keys u

module _ {T : Type 0} (id : Text) (change : StoredKey → Result (T × StoredKey))
    (keys : List StoredKey) where
  saved-Updates :
      (k : StoredKey) (r : Result (T × StoredKey))
      → find_key id keys ≡ some k
      → change k ≡ r
      → Updates id change keys (saved id keys r)
  unfolding saved
  saved-Updates k (err e) there made = fails e refl
  saved-Updates k (ok (t, k')) there made = works k k' t there made refl

  pub update-Updates : Updates id change keys (update id change keys)
  unfolding update
  update-Updates = elim (Option-cases (find_key id keys)) [
    | inl gone ↦ rw (gone, update) (fails _ refl)
    | inr (k, there) ↦ rw (there, update) (saved-Updates k (change k) there refl)
  ]

pub sign_voucher-Updates :
    (x : Crypto) (id channel_id : Text) (units now : ℕ) (keys : List StoredKey)
    → Updates id
        (sign_change x channel_id units now)
        keys
        (sign_voucher x id channel_id units now keys)
unfolding sign_voucher
sign_voucher-Updates x id channel_id units now keys =
    update-Updates id (sign_change x channel_id units now) keys

pub bind_channel-Updates :
    (x : Crypto) (id : Text) (b : ChannelBinding) (keys : List StoredKey)
    → Updates id (bind_change x b) keys (bind_channel x id b keys)
unfolding bind_channel
bind_channel-Updates x id b keys = update-Updates id (bind_change x b) keys

abbrev pub revoked : StoredKey → StoredKey
revoked k = record k { status = KeyStatus.revoked }

pub revoke-Updates :
    (id : Text) (keys : List StoredKey) → Updates id (λ k. ok (tt, revoked k)) keys (revoke id keys)
unfolding revoke
revoke-Updates id keys = update-Updates id (λ k. ok (tt, revoked k)) keys

-- A creation that fails stores nothing; one that works appends the new key.
pub create-cases :
    (x : Crypto) (config : ManagerConfig) (p : ChannelVoucherPolicy) (secret : Bytes) (id : Text)
    (now : ℕ) (keys : List StoredKey)
    → ((e : Failure) × (create x config p secret id now keys ≡ (err e, keys)))
      ⊎ (create x config p secret id now keys
          ≡ (ok (new_key x p secret id now), keys ++ new_key x p secret id now ∷ []))
unfolding create
create-cases x config p secret id now keys = go (check_policy config p now) refl
  where
    go :
        (r : Result (Unit {0}))
        → check_policy config p now ≡ r
        → ((e : Failure) × (create x config p secret id now keys ≡ (err e, keys)))
          ⊎ (create x config p secret id now keys
              ≡ (ok (new_key x p secret id now), keys ++ new_key x p secret id now ∷ []))
    go (err e) eq = inl (e, rw (eq, create) refl)
    go (ok t) eq = inr (rw (eq, create) refl)

-- The revocation of a stored key works.
pub revoke-found :
    (id : Text) (k : StoredKey) (keys : List StoredKey)
    → find_key id keys ≡ some k
    → revoke id keys ≡ (ok tt, put_key id (revoked k) keys)
unfolding revoke update saved
revoke-found id k keys there = rw (there, update) refl

pub find_key-put_self :
    (id : Text) (k k' : StoredKey) (keys : List StoredKey)
    → k'.id ≡ k.id
    → find_key id keys ≡ some k
    → find_key id (put_key id k' keys) ≡ some k'
find_key-put_self id k k' keys same there =
    let self : text_eq id id ≡ true = (text_eq_iff id id).1 refl in
    rw (find_key-put_key id id k' keys (same ∙ find_key-id id keys k there) k there, self) refl

pub find_key-append_self :
    (id : Text) (k : StoredKey) (keys : List StoredKey)
    → k.id ≡ id
    → find_key id keys ≡ none
    → find_key id (keys ++ k ∷ []) ≡ some k
find_key-append_self id k keys same new =
    let self : text_eq k.id id ≡ true = (text_eq_iff k.id id).1 same in
    rw (find_key-append_new id keys k new, self) refl

-- No stored key is active, but perhaps the one of an id.
abbrev pub OnlyLive : Option Text → List StoredKey → Type 0
OnlyLive live keys =
    (id : Text) (k : StoredKey)
    → find_key id keys ≡ some k
    → k.status ≡ KeyStatus.active
    → live ≡ some id

pub OnlyLive-put :
    (id : Text) (k k' : StoredKey) (keys : List StoredKey)
    → k'.id ≡ k.id
    → find_key id keys ≡ some k
    → OnlyLive (some id) keys
    → OnlyLive (some id) (put_key id k' keys)
OnlyLive-put id k k' keys same there only j l found live = elim (Bool-cases (text_eq id j)) [
  | inl eq ↦ rw ((text_eq_iff id j).0 eq) refl
  | inr other ↦
      only j l
        (sym (
            rw other at
              (find_key-put_key j id k' keys (same ∙ find_key-id id keys k there) k there))
          ∙ found)
        live
]

pub OnlyLive-append :
    (id : Text) (k : StoredKey) (keys : List StoredKey)
    → k.id ≡ id
    → OnlyLive none keys
    → OnlyLive (some id) (keys ++ k ∷ [])
OnlyLive-append id k keys same only j l found live = elim (Option-cases (find_key j keys)) [
  | inr (old, there) ↦
      let eq : old ≡ l = cc (find_key-append_old j keys k old there) in
      absurd (cc (only j old there (rw eq live)))
  | inl new ↦ elim (Bool-cases (text_eq k.id j)) [
    | inl eq ↦ cc ((text_eq_iff k.id j).0 eq)
    | inr other ↦ absurd (cc (rw other at (find_key-append_new j keys k new)))
  ]
]

-- After a revocation no key of the id is active.
pub OnlyLive-revoke :
    (id : Text) (keys : List StoredKey) → OnlyLive (some id) keys → OnlyLive none (revoke id keys).1
unfolding revoke update saved
OnlyLive-revoke id keys only = elim (Option-cases (find_key id keys)) [
  | inl gone ↦ rw (gone, update) (λ j l found live. absurd (cc (only j l found live)))
  | inr (k, there) ↦
      rw (there, update)
        (λ j l found live.
          let same : j ≡ id =
            cc (OnlyLive-put id k (revoked k) keys refl there only j l found live) in
          let mine : find_key id (put_key id (revoked k) keys) ≡ some l = rw same at found in
          let eq : l ≡ revoked k = cc (find_key-put_self id k (revoked k) keys refl there) in
          let contrary : KeyStatus.revoked ≡ KeyStatus.active = rw eq at live in absurd (cc))
]

-- A change that works on a stored key is put.
pub update-found :
    {T : Type 0} (id : Text) (change : StoredKey → Result (T × StoredKey)) (keys : List StoredKey)
    (k k' : StoredKey) (t : T)
    → find_key id keys ≡ some k
    → change k ≡ ok (t, k')
    → update id change keys ≡ (ok t, put_key id k' keys)
unfolding update saved
update-found id change keys k k' t there made = rw (there, update, made, saved) refl

pub sign_voucher-found :
    (x : Crypto) (id channel_id : Text) (units now : ℕ) (keys : List StoredKey) (k k' : StoredKey)
    (s : SignedVoucher)
    → find_key id keys ≡ some k
    → sign_change x channel_id units now k ≡ ok (s, k')
    → sign_voucher x id channel_id units now keys ≡ (ok s, put_key id k' keys)
unfolding sign_voucher
sign_voucher-found x id channel_id units now keys k k' s there made =
    update-found id (sign_change x channel_id units now) keys k k' s there made

-- A creation under an accepted policy stores the new key.
pub create-ok :
    (x : Crypto) (config : ManagerConfig) (p : ChannelVoucherPolicy) (secret : Bytes) (id : Text)
    (now : ℕ) (keys : List StoredKey)
    → check_policy config p now ≡ ok tt
    → create x config p secret id now keys
      ≡ (ok (new_key x p secret id now), keys ++ new_key x p secret id now ∷ [])
unfolding create
create-ok x config p secret id now keys accepted = rw (accepted, create) refl

-- A fresh key is bound to the channel that its policy derives.
pub bind_channel-new :
    (x : Crypto) (p : ChannelVoucherPolicy) (secret : Bytes) (id : Text) (now : ℕ)
    (b : ChannelBinding) (keys : List StoredKey)
    → Unseals x
    → 0 < b.deposit
    → b.deposit ≤ u64_max
    → x.derive_channel_pda (pda_input (new_key x p secret id now) b) ≡ b.channel_id
    → find_key id keys ≡ some (new_key x p secret id now)
    → bind_channel x id b keys
      ≡ (ok tt, put_key id (bound x (new_key x p secret id now) b secret) keys)
unfolding bind_channel bind_change new_key unseal
bind_channel-new x p secret id now b keys opens some_deposit word derived there =
    update-found id (bind_change x b) keys (new_key x p secret id now)
      (bound x (new_key x p secret id now) b secret) tt there changed
  where
    changed :
        bind_change x b (new_key x p secret id now)
        ≡ ok (tt, bound x (new_key x p secret id now) b secret)
    changed =
        let sized : (b.deposit == 0 || ltb u64_max b.deposit) ≡ false = ground arith in
        let same : text_eq (x.derive_channel_pda (pda_input (new_key x p secret id now) b))
              b.channel_id
            ≡ true =
          (text_eq_iff _ _).1 derived in
        rw (bind_change, sized, same, unseal, opens secret (sealed (new_key x p secret id now)))
          refl
