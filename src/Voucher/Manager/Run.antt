-- ===== src/Voucher/Manager/Run.antt =====
-- Any sequence of calls: the vouchers that leave the manager under one key id.
use connect_lib.Base.{
  ℕ, suc, ◌≤◌, ◌<◌, ◌≡◌, refl, true, false, Option, none, some, List, [], ◌∷◌, ◌++◌, arith, inl,
  inr, Bool-cases, Option-cases, ap, ◌∙◌, if◌then◌else◌,
}
use connect_lib.Base.Text.{Text, text_eq, text_eq_iff}
use connect_lib.Base.Bytes.{Bytes}
use connect_lib.Voucher.Message.{ChannelVoucher}
use connect_lib.Voucher.Types.{
  KeyStatus, ChannelBinding, BoundChannel, StoredKey, Crypto, Result, ok, err, ManagerConfig,
  ChannelVoucherPolicy,
}
use connect_lib.Voucher.Manager.{
  find_key, put_key, update, saved, create, bind_channel, sign_voucher, revoke, sign_change,
  bind_change, new_key, SignedVoucher, check_policy,
}
use connect_lib.Voucher.Manager.Found.{
  find_key-id, find_key-put_key, find_key-append_new, find_key-append_old,
}
use connect_lib.Voucher.Manager.Amount.{IsSigned, sign_change_lem}
use connect_lib.Voucher.Manager.Keys.{
  IsWithin, Changes, signs, binds, revokes, Changes-IsWithin, Changes-IsLater, new_key-IsWithin,
  bind_change_lem,
}

-- A call of the manager, with the fresh secret and id that a creation draws.
pub data Call : Type 0 where
  creates : ManagerConfig → ChannelVoucherPolicy → Bytes → Text → Call
  bind : Text → ChannelBinding → Call
  sign : Text → Text → ℕ → Call
  revokes_key : Text → Call

-- the amounts of the vouchers issued under `id`, the newest first, after one more result
pub issue : Text → Text → Result SignedVoucher → List ℕ → List ℕ
issue id signer (err e) amounts = amounts
issue id signer (ok s) amounts =
    if text_eq signer id then s.voucher.cumulative_amount ∷ amounts else amounts

module _ (x : Crypto) (id : Text) where
  -- One call at a time: the stored keys, and the amounts issued under `id`.
  unfoldable pub step : ℕ → Call → List StoredKey × List ℕ → List StoredKey × List ℕ
  unfolding issue
  step now (creates config p secret new_id) (keys, amounts) =
      ((create x config p secret new_id now keys).1, amounts)
  step now (bind key_id b) (keys, amounts) = ((bind_channel x key_id b keys).1, amounts)
  step now (sign key_id channel_id units) (keys, amounts) =
      let signed = sign_voucher x key_id channel_id units now keys in
      (signed.1, issue id key_id signed.0 amounts)
  step now (revokes_key key_id) (keys, amounts) = ((revoke key_id keys).1, amounts)

  unfoldable pub run : List (ℕ × Call) → List StoredKey × List ℕ → List StoredKey × List ℕ
  unfolding step
  run [] s = s
  run ((now, c) ∷ cs) s = run cs (step now c s)

-- The amounts, newest first, fall strictly, and all are below `n`.
abbrev pub Falls : ℕ → List ℕ → Type 0
Falls n [] = Unit
Falls n (a ∷ older) = (a < n) × Falls a older

-- What is known of the key of an id: none yet and nothing issued, or a key within its budget that
-- remembers at least the newest amount.
abbrev pub Accounts : Option StoredKey → List ℕ → Type 0
Accounts none amounts = amounts ≡ []
Accounts (some k) amounts = IsWithin k × Falls (suc k.last_cumulative) amounts

Falls-mono : (m n : ℕ) (amounts : List ℕ) → m ≤ n → Falls m amounts → Falls n amounts
Falls-mono m n [] h f = tt
Falls-mono m n (a ∷ older) h (lt, f) = (omega arith, f)

Accounts-append :
    (id : Text) (keys : List StoredKey) (k : StoredKey) (amounts : List ℕ)
    → IsWithin k
    → Accounts (find_key id keys) amounts
    → Accounts (find_key id (keys ++ k ∷ [])) amounts
Accounts-append id keys k amounts w h = elim (Option-cases (find_key id keys)) [
  | inr (old, there) ↦ rw (find_key-append_old id keys k old there) (rw there at h)
  | inl new ↦
      let none_yet : amounts ≡ [] = rw new at h in
      elim (Bool-cases (text_eq k.id id)) [
        | inl same ↦ rw (find_key-append_new id keys k new, same, none_yet) (w, tt)
        | inr other ↦ rw (find_key-append_new id keys k new, other) none_yet
      ]
]

-- A changed key accounts for the amounts of its id, and for those of no other.
Accounts-put_key :
    (id j : Text) (k k' : StoredKey) (keys : List StoredKey) (before after : List ℕ)
    → find_key j keys ≡ some k
    → Changes k k'
    → (text_eq j id ≡ true
        → Falls (suc k.last_cumulative) before
        → Falls (suc k'.last_cumulative) after)
    → (text_eq j id ≡ false → after ≡ before)
    → Accounts (find_key id keys) before
    → Accounts (find_key id (put_key j k' keys)) after
Accounts-put_key id j k k' keys before after there ch mine others h =
    let found =
      find_key-put_key id j k' keys ((Changes-IsLater ch).id ∙ find_key-id j keys k there) k
        there in
    elim (Bool-cases (text_eq j id)) [
      | inr other ↦ rw (found, other, others other) h
      | inl same ↦
          let eq : find_key id keys ≡ some k = rw ((text_eq_iff j id).0 same) at there in
          let (w, falls) : IsWithin k × Falls (suc k.last_cumulative) before = rw eq at h in
          rw (found, same) (Changes-IsWithin ch w, mine same falls)
    ]

module _ {T : Type 0} (id j : Text) (change : StoredKey → Result (T × StoredKey))
    (sound : (k k' : StoredKey) (t : T) → change k ≡ ok (t, k') → Changes k k') where
  saved-Accounts :
      (keys : List StoredKey) (amounts : List ℕ) (k : StoredKey) (r : Result (T × StoredKey))
      → change k ≡ r
      → find_key j keys ≡ some k
      → Accounts (find_key id keys) amounts
      → Accounts (find_key id (saved j keys r).1) amounts
  unfolding saved
  saved-Accounts keys amounts k (err e) made there h = h
  saved-Accounts keys amounts k (ok (t, k')) made there h =
      let ch : Changes k k' = sound k k' t made in
      Accounts-put_key id j k k' keys amounts amounts there ch
        (λ same f. Falls-mono _ _ amounts (omega (arith, (Changes-IsLater ch).amount)) f)
        (λ other. refl) h

  update-Accounts :
      (keys : List StoredKey) (amounts : List ℕ)
      → Accounts (find_key id keys) amounts
      → Accounts (find_key id (update j change keys).1) amounts
  unfolding update
  update-Accounts keys amounts h = elim (Option-cases (find_key j keys)) [
    | inl gone ↦ rw (gone, update) h
    | inr (k, there) ↦ rw (there, update) (saved-Accounts keys amounts k (change k) refl there h)
  ]

pub sign_change-Changes :
    (x : Crypto) (channel_id : Text) (units now : ℕ) (k k' : StoredKey) (s : SignedVoucher)
    → sign_change x channel_id units now k ≡ ok (s, k')
    → Changes k k'
sign_change-Changes x channel_id units now k k' s h =
    signs s channel_id units now (sign_change_lem x channel_id units now k s k' h)

module _ (x : Crypto) (id j channel_id : Text) (units now : ℕ) (keys : List StoredKey)
    (amounts : List ℕ) where
  signed-Accounts :
      (k : StoredKey) (r : Result (SignedVoucher × StoredKey))
      → sign_change x channel_id units now k ≡ r
      → find_key j keys ≡ some k
      → Accounts (find_key id keys) amounts
      → Accounts (find_key id (saved j keys r).1) (issue id j (saved j keys r).0 amounts)
  unfolding saved issue
  signed-Accounts k (err e) made there h = h
  signed-Accounts k (ok (s, k')) made there h =
      let signed : IsSigned k k' s channel_id units now =
        sign_change_lem x channel_id units now k s k' made in
      let amount : s.voucher.cumulative_amount ≡ signed.amount =
        ap (λ (v : ChannelVoucher). v.cumulative_amount) signed.voucher in
      let last : k'.last_cumulative ≡ signed.amount =
        ap (λ (d : StoredKey). d.last_cumulative) signed.kept in
      Accounts-put_key id j k k' keys amounts
        (if text_eq j id then s.voucher.cumulative_amount ∷ amounts else amounts) there
        (signs s channel_id units now signed)
        (λ same f. rw same (
          omega arith,
          Falls-mono (suc k.last_cumulative) s.voucher.cumulative_amount amounts
              (omega (arith, signed.next.rises)) f,
        ))
        (λ other. rw other refl) h

  sign_voucher-Accounts :
      Accounts (find_key id keys) amounts
      → Accounts
          (find_key id (sign_voucher x j channel_id units now keys).1)
          (issue id j (sign_voucher x j channel_id units now keys).0 amounts)
  unfolding sign_voucher update issue
  sign_voucher-Accounts h = elim (Option-cases (find_key j keys)) [
    | inl gone ↦ rw (gone, update) h
    | inr (k, there) ↦
        rw (there, update) (signed-Accounts k (sign_change x channel_id units now k) refl there h)
  ]

create-Accounts :
    (x : Crypto) (config : ManagerConfig) (p : ChannelVoucherPolicy) (secret : Bytes)
    (new_id id : Text) (now : ℕ) (keys : List StoredKey) (amounts : List ℕ)
    → Accounts (find_key id keys) amounts
    → Accounts (find_key id (create x config p secret new_id now keys).1) amounts
unfolding create
create-Accounts x config p secret new_id id now keys amounts h = go (check_policy config p now) refl
  where
    go :
        (r : Result (Unit {0}))
        → check_policy config p now ≡ r
        → Accounts (find_key id (create x config p secret new_id now keys).1) amounts
    go (err e) eq = rw (eq, create) h
    go (ok t) eq =
        rw (eq, create)
          (Accounts-append id keys (new_key x p secret new_id now) amounts
            (new_key-IsWithin x p secret new_id now) h)

step-Accounts :
    (x : Crypto) (id : Text) (now : ℕ) (c : Call) (keys : List StoredKey) (amounts : List ℕ)
    → Accounts (find_key id keys) amounts
    → let (keys', amounts') = step x id now c (keys, amounts) in
      Accounts (find_key id keys') amounts'
unfolding step bind_channel revoke
step-Accounts x id now (creates config p secret new_id) keys amounts h =
    create-Accounts x config p secret new_id id now keys amounts h
step-Accounts x id now (bind j b) keys amounts h =
    update-Accounts id j (bind_change x b)
      (λ k k' t e.
        let (secret, free, is) = bind_change_lem x b k k' t e in binds x b secret free is)
      keys amounts h
step-Accounts x id now (sign j channel_id units) keys amounts h =
    sign_voucher-Accounts x id j channel_id units now keys amounts h
step-Accounts x id now (revokes_key j) keys amounts h =
    update-Accounts id j (λ k. ok (tt, record k { status = KeyStatus.revoked }))
      (λ k k' t e. revokes (ground arith)) keys amounts h

run-Accounts :
    (x : Crypto) (id : Text) (cs : List (ℕ × Call)) (keys : List StoredKey) (amounts : List ℕ)
    → Accounts (find_key id keys) amounts
    → let (keys', amounts') = run x id cs (keys, amounts) in Accounts (find_key id keys') amounts'
unfolding run
run-Accounts x id [] keys amounts h = h
run-Accounts x id ((now, c) ∷ cs) keys amounts h =
    let (keys', amounts') = step x id now c (keys, amounts) in
    run-Accounts x id cs keys' amounts' (step-Accounts x id now c keys amounts h)

-- Whatever is called in whatever order, from an empty store: the amounts issued under an id fall
-- strictly from the newest to the oldest, the key's record bounds them all, and so do, once it is
-- bound, the policy's limit and the channel's deposit.
pub run-Falls :
    (x : Crypto) (id : Text) (cs : List (ℕ × Call)) (k : StoredKey) (c : BoundChannel)
    → find_key id (run x id cs ([], [])).0 ≡ some k
    → k.channel ≡ some c
    → Falls (suc k.last_cumulative) (run x id cs ([], [])).1
      × (k.last_cumulative ≤ k.policy.max_cumulative)
      × (k.last_cumulative ≤ c.deposit)
unfolding find_key
run-Falls x id cs k c there bound =
    let (w, falls) : IsWithin k × Falls (suc k.last_cumulative) (run x id cs ([], [])).1 =
      rw there at (run-Accounts x id cs [] [] refl) in
    let (is_min, under) = w.capped c bound in (falls, omega arith, omega arith)
