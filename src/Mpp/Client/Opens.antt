-- ===== src/Mpp/Client/Opens.antt =====
-- session.ts: an open that the server acknowledges.
use connect_lib.Base.{◌<◌, ◌≤◌, ◌≡◌, refl, Option, none, some, [], ◌∷◌, ◌++◌, ap, ◌∙◌}
use connect_lib.Base.Bytes.{Bytes}
use connect_lib.Base.Text.{Text}
use connect_lib.Session.Types.{passed}
use connect_lib.Voucher.Message.{u64_max}
use connect_lib.Voucher.Types.{StoredKey, Crypto, ManagerConfig, ok}
use connect_lib.Voucher.Manager.{find_key, put_key, new_key, bound, check_policy, bind_channel}
use connect_lib.Voucher.Manager.Signs.{Unseals}
use connect_lib.Voucher.Manager.Updates.{
  create-ok, bind_channel-new, find_key-append_self, find_key-put_self,
}
use connect_lib.Mpp.Types.{
  SessionRequest, MppSessionPolicy, MppReceipt, PaidResponse, MppOpenChannel,
}
use connect_lib.Mpp.Client.{Client}
use connect_lib.Mpp.Client.Demand.{OpenAnswers, Sent, sent, demanded}
use connect_lib.Mpp.Client.Open.{
  key_policy, channel_of, binding_of, acknowledged, opened, hand_over, sign_open, after_creation,
  answer_demand, fetch_unopened,
}

module _ (x : Crypto) (p : MppSessionPolicy) (signer : Text) (o : OpenAnswers)
    (s : SessionRequest) where
  -- The key that an open creates, the channel that it opens, and the key once it is bound.
  abbrev pub opened_key : StoredKey
  opened_key = new_key x (key_policy p signer s) o.secret o.id o.created_ms

  abbrev pub opened_channel : MppOpenChannel
  opened_channel = channel_of x p signer s opened_key o.salt

  abbrev pub bound_key : StoredKey
  bound_key = bound x opened_key (binding_of p opened_channel) o.secret

  abbrev pub opened_client : Client → Client
  opened_client c = record c {
    active = some (opened opened_channel opened_key);
    channels = c.channels ++ opened_channel ∷ [];
    keys = put_key o.id bound_key (c.keys ++ opened_key ∷ []);
  }

module _ (x : Crypto) (opens : Unseals x) (config : ManagerConfig) (p : MppSessionPolicy)
    (signer : Text) (o : OpenAnswers) (s : SessionRequest) (transaction : Bytes)
    (answer : Option PaidResponse) (receipt : MppReceipt) (c : Client) where
  abbrev k : StoredKey
  k = opened_key x p signer o s

  abbrev ch : MppOpenChannel
  ch = opened_channel x p signer o s

  binds :
      0 < p.deposit
      → p.deposit ≤ u64_max
      → find_key o.id c.keys ≡ none
      → bind_channel x o.id (binding_of p ch) (c.keys ++ k ∷ [])
        ≡ (ok tt, put_key o.id (bound_key x p signer o s) (c.keys ++ k ∷ []))
  unfolding new_key
  binds some_deposit word fresh =
      bind_channel-new x (key_policy p signer s) o.secret o.id o.created_ms (binding_of p ch)
        (c.keys ++ k ∷ []) opens some_deposit word refl
        (find_key-append_self o.id k c.keys refl fresh)

  -- An open that is demanded, signed and acknowledged by the server, under a policy that the key
  -- manager accepts and with a fresh id, is answered with the server's receipt and the channel, and
  -- leaves that channel active with its key bound to it.
  pub fetch_unopened-opens :
      demanded p o ≡ passed (some s)
      → check_policy config (key_policy p signer s) o.created_ms ≡ ok tt
      → o.transaction ≡ some transaction
      → o.response ≡ sent answer
      → acknowledged answer ch ≡ passed receipt
      → 0 < p.deposit
      → p.deposit ≤ u64_max
      → find_key o.id c.keys ≡ none
      → (fetch_unopened x config p signer o c ≡ (
        passed (record { receipt = some receipt; channel = some ch }),
        opened_client x p signer o s c,
      ))
        × (find_key o.id (opened_client x p signer o s c).keys ≡ some (bound_key x p signer o s))
  unfolding fetch_unopened new_key
  fetch_unopened-opens demand accepted signing sending ack some_deposit word fresh = (
    ap (λ d. answer_demand x config p signer o d c) demand
        ∙ ap (after_creation x config p signer o s c)
            (create-ok x config (key_policy p signer s) o.secret o.id o.created_ms c.keys accepted)
        ∙ ap
            (λ (t : Option Bytes).
              sign_open x p t o.response ch k (record c { keys = c.keys ++ k ∷ [] }))
            signing
        ∙ ap (λ (r : Sent). hand_over x p r ch k (record c { keys = c.keys ++ k ∷ [] })) sending
        ∙ rw (ack, binds some_deposit word fresh) refl,
    find_key-put_self o.id k (bound_key x p signer o s) (c.keys ++ k ∷ []) refl
        (find_key-append_self o.id k c.keys refl fresh),
  )
