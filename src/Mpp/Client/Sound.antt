-- ===== src/Mpp/Client/Sound.antt =====
-- session.ts: what holds of every client, and that the requests over an open channel keep it.
pub mod Opening
pub mod Closing
pub mod Settled
use connect_lib.Base.{
  ℕ, ◌≤◌, ◌≡◌, refl, min, Bool, true, false, Option, none, some, List, [], ◌∷◌, arith, inl, inr,
  Bool-cases, Option-cases, ap, ◌∙◌, sym, or_else, ◌==◌,
}
use connect_lib.Base.Text.{Text}
use connect_lib.Voucher.Message.{ChannelVoucher}
use connect_lib.Voucher.Types.{KeyStatus, BoundChannel, StoredKey, Crypto, Result, ok, err}
use connect_lib.Voucher.Manager.{
  find_key, put_key, SignedVoucher, sign_voucher, sign_change, next_voucher,
}
use connect_lib.Voucher.Manager.Amount.{IsSigned, sign_change_lem}
use connect_lib.Voucher.Manager.Updates.{
  Updates, fails, works, sign_voucher-Updates, find_key-put_self, OnlyLive, OnlyLive-put,
}
use connect_lib.Mpp.Types.{MppSessionPolicy, MppOpenChannel, PaidResponse}
use connect_lib.Mpp.Client.{Active, Client, pay, fetch_keyed, fetch_active, after_signing, taken}

-- The stored key of an acknowledged channel: it is active, bound to that channel, within the
-- policy, and has signed for the amount of the last voucher.
pub record IsKeyed (p : MppSessionPolicy) (a : Active) (id : Text) (keys : List StoredKey)
    : Type 0 where
  pub key : StoredKey
  pub found : find_key id keys ≡ some key
  pub status : key.status ≡ KeyStatus.active
  pub binding : BoundChannel
  pub bound : key.channel ≡ some binding
  pub named : binding.channel_id ≡ a.channel.channel_id
  pub budget : binding.max_cumulative ≤ p.max_cumulative
  pub covered : binding.max_cumulative ≤ p.deposit
  pub price : key.policy.price_per_unit ≡ p.amount
  pub within : key.last_cumulative ≤ binding.max_cumulative
  pub unsent : a.last_voucher ≡ none → key.last_cumulative ≡ 0
  pub sent :
      (s : SignedVoucher)
      → a.last_voucher ≡ some s
      → (s.voucher.cumulative_amount ≡ key.last_cumulative)
        × (s.voucher.channel_id ≡ a.channel.channel_id)

-- An open channel is on the policy's terms. One that was not acknowledged has no voucher.
pub record IsOpen (p : MppSessionPolicy) (a : Active) (keys : List StoredKey) : Type 0 where
  pub payee : a.channel.payee ≡ p.recipient
  pub mint : a.channel.mint ≡ p.mint
  pub deposit : a.channel.deposit ≡ p.deposit
  pub unacknowledged : a.key_id ≡ none → a.last_voucher ≡ none
  pub keyed : (id : Text) → a.key_id ≡ some id → IsKeyed p a id keys

-- At most one channel is open, it is the one that is listed, and no key is active but its own.
abbrev pub IsSoundAt :
    MppSessionPolicy → Option Active → List MppOpenChannel → List StoredKey → Type 0
IsSoundAt p none channels keys = (channels ≡ []) × OnlyLive none keys
IsSoundAt p (some a) channels keys =
    (channels ≡ a.channel ∷ []) × IsOpen p a keys × OnlyLive a.key_id keys

abbrev pub IsSound : MppSessionPolicy → Client → Type 0
IsSound p c = IsSoundAt p c.active c.channels c.keys

-- A signature leaves the key of the channel as it should be for the new last voucher.
signed-IsKeyed :
    (p : MppSessionPolicy) (a : Active) (id : Text) (keys : List StoredKey) (k k' : StoredKey)
    (s : SignedVoucher) (units now : ℕ)
    → IsKeyed p a id keys
    → find_key id keys ≡ some k
    → IsSigned k k' s a.channel.channel_id units now
    → IsKeyed p (record a { last_voucher = some s }) id (put_key id k' keys)
signed-IsKeyed p a id keys k k' s units now h there signed =
    let same : h.key ≡ k = cc h.found in
    let channel : signed.channel ≡ h.binding = cc (h.bound, signed.bound, same) in
    let last : k'.last_cumulative ≡ signed.amount =
      ap (λ (d : StoredKey). d.last_cumulative) signed.kept in
    record {
      key = k';
      found = find_key-put_self id k k' keys (ap (λ (d : StoredKey). d.id) signed.kept) there;
      status = ap (λ (d : StoredKey). d.status) signed.kept ∙ signed.active;
      binding = h.binding;
      bound = ap (λ (d : StoredKey). d.channel) signed.kept ∙ signed.bound ∙ ap some channel;
      named = h.named;
      budget = h.budget;
      covered = h.covered;
      price =
          ap (λ (d : StoredKey). d.policy.price_per_unit) signed.kept
          ∙ ap (λ (d : StoredKey). d.policy.price_per_unit) (sym same)
          ∙ h.price;
      within =
          omega
            (arith, last, signed.next.budget, ap (λ (b : BoundChannel). b.max_cumulative) channel);
      unsent = λ e. absurd (cc e);
      sent = λ t e.
          let is : s ≡ t = cc e in
          (
            ap (λ (t : SignedVoucher). t.voucher.cumulative_amount) (sym is)
                ∙ ap (λ (v : ChannelVoucher). v.cumulative_amount) signed.voucher
                ∙ sym last,
            ap (λ (t : SignedVoucher). t.voucher.channel_id) (sym is)
                ∙ ap (λ (v : ChannelVoucher). v.channel_id) signed.voucher
                ∙ sym signed.named,
          );
    }

module _ (x : Crypto) (p : MppSessionPolicy) (units : Option ℕ) (now_ms : ℕ)
    (answer : Option PaidResponse) (a : Active) (c : Client) (at : c.active ≡ some a)
    (listed : c.channels ≡ a.channel ∷ []) (opened : IsOpen p a c.keys)
    (only : OnlyLive a.key_id c.keys) where
  pay-IsSound :
      (metered : ℕ) (id : Text)
      → a.key_id ≡ some id
      → IsSound p (pay x units now_ms answer metered a id c).1
  unfolding pay after_signing
  pay-IsSound metered id is =
      go (sign_voucher-Updates x id a.channel.channel_id metered now_ms c.keys)
    where
      go :
          {u : Result SignedVoucher × List StoredKey}
          → Updates id (sign_change x a.channel.channel_id metered now_ms) c.keys u
          → IsSound p
              (after_signing units metered answer a
                (record c { pending_units = taken units metered c.pending_units; keys = u.1 })
                u.0).1
      go (fails e eq) = rw (eq, at) (listed, opened, only)
      go (works k k' s there made eq) =
          let signed = sign_change_lem x a.channel.channel_id metered now_ms k s k' made in
          let same : k'.id ≡ k.id = ap (λ (d : StoredKey). d.id) signed.kept in
          rw eq (
            listed,
            record {
              payee = opened.payee;
              mint = opened.mint;
              deposit = opened.deposit;
              unacknowledged = λ e. absurd (cc e);
              keyed = λ j e.
                  let mine : j ≡ id = cc e in
                  rw mine (
                    signed-IsKeyed p a id c.keys k k' s metered now_ms (opened.keyed id is) there
                      signed);
            },
            rw is (OnlyLive-put id k k' c.keys same there (rw is at only)),
          )

  fetch_keyed-IsSound :
      (o : Option Text) → a.key_id ≡ o → IsSound p (fetch_keyed x units now_ms answer o a c).1
  unfolding fetch_keyed
  fetch_keyed-IsSound none is = rw at (listed, opened, only)
  fetch_keyed-IsSound (some id) is = elim (Bool-cases (or_else units c.pending_units == 0)) [
    | inl empty ↦ rw (empty, at) (listed, opened, only)
    | inr some_units ↦ rw some_units (pay-IsSound (or_else units c.pending_units) id is)
  ]

  pub fetch_active-IsSound : IsSound p (fetch_active x units now_ms answer a c).1
  unfolding fetch_active
  fetch_active-IsSound = fetch_keyed-IsSound a.key_id refl
