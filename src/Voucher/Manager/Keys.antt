-- ===== src/Voucher/Manager/Keys.antt =====
-- channel-voucher-keys.ts: the changes of one stored key, and its channel's budget.
use connect_lib.Voucher.Message.{u64_max}
use connect_lib.Base.{
  ◌==◌, ◌||◌, ltb, ℕ, ◌≤◌, min, ◌≡◌, refl, false, not, Option, none, some, arith, is_some,
}
use connect_lib.Base.Text.{Text, text_eq}
use connect_lib.Base.Bytes.{Bytes}
use connect_lib.Voucher.Types.{
  KeyStatus, ChannelBinding, BoundChannel, StoredKey, Crypto, ok, ChannelVoucherPolicy,
}
use connect_lib.Voucher.Manager.{bind_change, bound, new_key, SignedVoucher, pda_input, unseal}
use connect_lib.Voucher.Manager.Amount.{IsSigned, >>=-eq-ok, refuse_if-eq-ok, fail_if-eq-ok}

-- An unbound key has signed nothing; a bound one has a budget that is the smaller of the policy's
-- limit and the deposit, and has signed no more than that.
pub record IsWithin (k : StoredKey) : Type 0 where
  pub unbound : k.channel ≡ none → k.last_cumulative ≡ 0
  pub capped :
      (c : BoundChannel)
      → k.channel ≡ some c
      → (c.max_cumulative ≡ min k.policy.max_cumulative c.deposit)
        × (k.last_cumulative ≤ c.max_cumulative)

-- Binding happens once, on a key with no channel, and changes the channel and the sealed key alone.
pub bind_change_lem :
    (x : Crypto) (b : ChannelBinding) (k k' : StoredKey) (t : Unit {0})
    → bind_change x b k ≡ ok (t, k')
    → (secret : Bytes) × (k.channel ≡ none) × (k' ≡ bound x k b secret)
unfolding bind_change
bind_change_lem x b k k' t h =
    let (free, h₁) = refuse_if-eq-ok (is_some k.channel) _ _ h in
    let (_, h₂) = fail_if-eq-ok (b.deposit == 0 || ltb u64_max b.deposit) _ _ h₁ in
    let (_, h₃) =
      refuse_if-eq-ok (not (text_eq (x.derive_channel_pda (pda_input k b)) b.channel_id)) _ _ h₂ in
    let (secret, opened, h₄) = >>=-eq-ok (unseal x k) _ h₃ in
    (secret, unset k.channel free, ground (arith, h₄))
  where
    unset : (o : Option BoundChannel) → is_some o ≡ false → o ≡ none
    unset none e = refl
    unset (some c) e = cc

pub new_key-IsWithin :
    (x : Crypto) (p : ChannelVoucherPolicy) (secret : Bytes) (id : Text) (now : ℕ)
    → IsWithin (new_key x p secret id now)
unfolding new_key
new_key-IsWithin x p secret id now = record { unbound = λ h. refl; capped = λ c h. cc }

bound-IsWithin :
    (x : Crypto) (k : StoredKey) (b : ChannelBinding) (secret : Bytes)
    → IsWithin k
    → k.channel ≡ none
    → IsWithin (bound x k b secret)
bound-IsWithin x k b secret w free = record {
  unbound = λ h. cc;
  capped = λ c h. ground (arith, w.unbound free);
}

pub signed-IsWithin :
    (k k' : StoredKey) (s : SignedVoucher) (channel_id : Text) (units now : ℕ)
    → IsWithin k
    → IsSigned k k' s channel_id units now
    → IsWithin k'
signed-IsWithin k k' s channel_id units now w h = rw h.kept (record {
  unbound = λ e. cc h.bound;
  capped = λ c e. ground (arith, w.capped c e, h.bound, h.next.budget);
})

revoked-IsWithin : (k : StoredKey) → IsWithin k → IsWithin (record k { status = KeyStatus.revoked })
revoked-IsWithin k w = record { unbound = w.unbound; capped = w.capped }

-- What a change may make of a key.
pub data Changes (k : StoredKey) : StoredKey → Type 0 where
  signs :
      {k' : StoredKey} (s : SignedVoucher) (channel_id : Text) (units now : ℕ)
      → IsSigned k k' s channel_id units now
      → Changes k k'
  binds :
      {k' : StoredKey} (x : Crypto) (b : ChannelBinding) (secret : Bytes)
      → k.channel ≡ none
      → k' ≡ bound x k b secret
      → Changes k k'
  revokes : {k' : StoredKey} → k' ≡ record k { status = KeyStatus.revoked } → Changes k k'

-- Every change leaves a key within its budget.
pub Changes-IsWithin : {k k' : StoredKey} → Changes k k' → IsWithin k → IsWithin k'
Changes-IsWithin {k} (signs {k'} s channel_id units now h) w =
    signed-IsWithin k k' s channel_id units now w h
Changes-IsWithin {k} (binds x b secret free e) w = rw e (bound-IsWithin x k b secret w free)
Changes-IsWithin {k} (revokes e) w = rw e (revoked-IsWithin k w)

-- The later of two states of one key: who it is, what it has signed for, its channel and its
-- revocation are those of the earlier, or beyond them.
pub record IsLater (k k' : StoredKey) : Type 0 where
  pub id : k'.id ≡ k.id
  pub address : k'.address ≡ k.address
  pub policy : k'.policy ≡ k.policy
  pub amount : k.last_cumulative ≤ k'.last_cumulative
  pub channel : (c : BoundChannel) → k.channel ≡ some c → k'.channel ≡ some c
  pub revoked : k.status ≡ KeyStatus.revoked → k'.status ≡ KeyStatus.revoked

-- A change of a stored key keeps its id, address and policy, never lowers the amount it has signed
-- for, keeps the channel that it is bound to, and never undoes a revocation.
pub Changes-IsLater : {k k' : StoredKey} → Changes k k' → IsLater k k'
Changes-IsLater {k} (signs s channel_id units now h) = rw h.kept (record {
  id = refl;
  address = refl;
  policy = refl;
  amount = ground (arith, h.next.rises);
  channel = λ c e. e;
  revoked = λ e. e;
})
Changes-IsLater {k} (binds x b secret free e) = rw e (record {
  id = refl;
  address = refl;
  policy = refl;
  amount = omega arith;
  channel = λ c e. cc free;
  revoked = λ e. e;
})
Changes-IsLater {k} (revokes e) = rw e (record {
  id = refl;
  address = refl;
  policy = refl;
  amount = omega arith;
  channel = λ c e. e;
  revoked = λ e. refl;
})
