-- ===== src/Mpp/Client/Sound/Opening.antt =====
-- session.ts: opening a channel keeps a client sound.
use connect_lib.Base.{
  ◌≡◌, refl, min, true, Option, none, some, List, [], ◌∷◌, ◌++◌, arith, inl, inr, ap, ◌∙◌,
}
use connect_lib.Base.Bytes.{Bytes}
use connect_lib.Base.Text.{Text, text_eq, text_eq_iff}
use connect_lib.Session.Types.{passed, thrown}
use connect_lib.Voucher.Types.{KeyStatus, StoredKey, Crypto, Result, ManagerConfig}
use connect_lib.Voucher.Manager.{find_key, put_key, new_key, bound, bind_change}
use connect_lib.Voucher.Manager.Keys.{bind_change_lem}
use connect_lib.Voucher.Manager.Updates.{
  Updates, fails, works, bind_channel-Updates, create-cases, find_key-put_self,
  find_key-append_self, OnlyLive, OnlyLive-put, OnlyLive-append, OnlyLive-revoke,
}
use connect_lib.Mpp.Types.{
  SessionRequest, MppSessionPolicy, MppOpenChannel, MppReceipt, MppFailure, Outcome, key_manager,
}
use connect_lib.Mpp.Client.{Client, without_channel}
use connect_lib.Mpp.Client.Demand.{OpenAnswers, Sent, unsent, sent, demanded}
use connect_lib.Mpp.Client.Open.{
  key_policy, channel_of, binding_of, acknowledged, roll_back, strand, after_binding, bind_opened,
  opened, hand_over, sign_open, open_channel, answer_demand, fetch_unopened,
}
use connect_lib.Mpp.Client.Offer.{IsPayable, demanded-IsPayable}
use connect_lib.Mpp.Client.Sound.{IsKeyed, IsSound}

without_only : (ch : MppOpenChannel) → without_channel ch.channel_id (ch ∷ []) ≡ []
without_only ch =
    let self : text_eq ch.channel_id ch.channel_id ≡ true =
      (text_eq_iff ch.channel_id ch.channel_id).1 refl in
    rw self refl

-- From a created key on: `ch` is on the policy's terms, `k` is the key that was just stored for the
-- policy, and the client has no channel.
module _ (x : Crypto) (p : MppSessionPolicy) (ch : MppOpenChannel) (k : StoredKey) (c : Client)
    (payee : ch.payee ≡ p.recipient) (mint : ch.mint ≡ p.mint) (deposit : ch.deposit ≡ p.deposit)
    (found : find_key k.id c.keys ≡ some k) (status : k.status ≡ KeyStatus.active)
    (price : k.policy.price_per_unit ≡ p.amount)
    (limit : k.policy.max_cumulative ≡ p.max_cumulative) (unused : k.last_cumulative ≡ 0)
    (only : OnlyLive (some k.id) c.keys) where
  abbrev listed : Client
  listed = record c { active = some (opened ch k); channels = ch ∷ [] }

  strand-IsSound : (e : MppFailure) → IsSound p (strand k.id (opened ch k) e listed).1
  unfolding strand
  strand-IsSound e = (
    refl,
    record {
      payee = payee;
      mint = mint;
      deposit = deposit;
      unacknowledged = λ h. refl;
      keyed = λ id h. cc;
    },
    OnlyLive-revoke k.id c.keys only,
  )

  bound-IsKeyed :
      (k' : StoredKey) (secret : Bytes)
      → k' ≡ bound x k (binding_of p ch) secret
      → IsKeyed p (opened ch k) k.id (put_key k.id k' c.keys)
  bound-IsKeyed k' secret is = rw is (record {
    key = bound x k (binding_of p ch) secret;
    found = find_key-put_self k.id k (bound x k (binding_of p ch) secret) c.keys refl found;
    status = status;
    binding = record {
      binding = binding_of p ch;
      max_cumulative = min k.policy.max_cumulative p.deposit;
    };
    bound = refl;
    named = refl;
    budget = omega (arith, limit);
    covered = omega arith;
    price = price;
    within = omega (arith, unused);
    unsent = λ e. unused;
    sent = λ s e. cc;
  })

  bind_opened-IsSound :
      (r : Outcome MppReceipt) → IsSound p (bind_opened x p k.id (opened ch k) listed r).1
  unfolding bind_opened
  bind_opened-IsSound (thrown e) = strand-IsSound e
  bind_opened-IsSound (passed receipt) = go (bind_channel-Updates x k.id (binding_of p ch) c.keys)
    where
      go :
          {u : Result (Unit {0}) × List StoredKey}
          → Updates k.id (bind_change x (binding_of p ch)) c.keys u
          → IsSound p (after_binding k.id (opened ch k) receipt listed u).1
      go (fails e eq) = rw eq (strand-IsSound (key_manager e))
      go (works j k' t there made eq) =
          let same : j ≡ k = cc (there, found) in
          let (secret, _, changed) = bind_change_lem x (binding_of p ch) j k' t made in
          let changed' : k' ≡ bound x k (binding_of p ch) secret =
            changed ∙ ap (λ (i : StoredKey). bound x i (binding_of p ch) secret) same in
          rw eq (
            refl,
            record {
              payee = payee;
              mint = mint;
              deposit = deposit;
              unacknowledged = λ h. refl;
              keyed =
                  λ id h. let mine : id ≡ k.id = cc in rw mine (bound-IsKeyed k' secret changed');
            },
            OnlyLive-put k.id k k' c.keys (rw changed' refl) found only,
          )

  hand_over-IsSound :
      (response : Sent) → c.channels ≡ [] → IsSound p (hand_over x p response ch k c).1
  unfolding hand_over roll_back
  hand_over-IsSound unsent idle = rw idle (without_only ch, OnlyLive-revoke k.id c.keys only)
  hand_over-IsSound (sent answer) idle = rw idle (bind_opened-IsSound (acknowledged answer ch))

  pub sign_open-IsSound :
      (transaction : Option Bytes) (response : Sent)
      → c.active ≡ none
      → c.channels ≡ []
      → IsSound p (sign_open x p transaction response ch k c).1
  unfolding sign_open
  sign_open-IsSound none response at idle = rw at (idle, OnlyLive-revoke k.id c.keys only)
  sign_open-IsSound (some t) response at idle = hand_over-IsSound response idle

module _ (x : Crypto) (config : ManagerConfig) (p : MppSessionPolicy) (signer : Text)
    (o : OpenAnswers) (c : Client) (at : c.active ≡ none) (idle : c.channels ≡ [])
    (only : OnlyLive none c.keys) (fresh : find_key o.id c.keys ≡ none) where
  open_channel-IsSound :
      (s : SessionRequest)
      → IsPayable p o.rpc o.checked_ms s
      → IsSound p (open_channel x config p signer o s c).1
  unfolding open_channel new_key
  open_channel-IsSound s payable =
      let k = new_key x (key_policy p signer s) o.secret o.id o.created_ms in
      elim (create-cases x config (key_policy p signer s) o.secret o.id o.created_ms c.keys) [
        | inl (e, eq) ↦ rw (eq, at) (idle, only)
        | inr eq ↦ rw eq (
            sign_open-IsSound x p (channel_of x p signer s k o.salt) k
              (record c { keys = c.keys ++ k ∷ [] }) payable.payee payable.mint refl
              (find_key-append_self o.id k c.keys refl fresh) refl refl refl refl
              (OnlyLive-append o.id k c.keys refl only) o.transaction o.response at idle)
      ]

  pub fetch_unopened-IsSound : IsSound p (fetch_unopened x config p signer o c).1
  unfolding fetch_unopened
  fetch_unopened-IsSound = go (demanded p o) refl
    where
      go :
          (d : Outcome (Option SessionRequest))
          → demanded p o ≡ d
          → IsSound p (answer_demand x config p signer o d c).1
      go (thrown e) is = rw at (idle, only)
      go (passed none) is = rw at (idle, only)
      go (passed (some s)) is = (open_channel-IsSound s (demanded-IsPayable p o s is))
