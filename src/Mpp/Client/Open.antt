-- ===== src/Mpp/Client/Open.antt =====
-- session.ts: the part of `performFetch` that answers a challenge by opening a channel.
use connect_lib.Base.{ℕ, Option, none, some, List, [], ◌∷◌, ◌++◌, ◌==◌}
use connect_lib.Base.Bytes.{Bytes}
use connect_lib.Base.Text.{Text}
use connect_lib.Session.Types.{passed, thrown, ◌>>=◌, ◌>>◌}
use connect_lib.Voucher.Types.{
  ChannelVoucherPolicy, ChannelBinding, StoredKey, Crypto, Result, ok, err, ManagerConfig,
}
use connect_lib.Voucher.Manager.{create, bind_channel, revoke}
use connect_lib.Mpp.Types.{
  SessionRequest, MppSessionPolicy, MppOpenChannel, MppReceipt, PaidResponse, MppFailure, Outcome,
  mpp, key_manager, outside, fail_when, answered, invalid_challenge, payment_rejected,
}
use connect_lib.Mpp.Client.{Active, Client, FetchResult, receipt_for, without_channel}
use connect_lib.Mpp.Client.Demand.{OpenAnswers, Sent, unsent, sent, demanded}

-- The policy of the voucher key that an open creates.
abbrev pub key_policy : MppSessionPolicy → Text → SessionRequest → ChannelVoucherPolicy
key_policy p signer s = record {
  cluster = s.cluster;
  channel_program = s.channel_program;
  payer = signer;
  mint = s.currency;
  payee = s.recipient;
  price_per_unit = p.amount;
  max_cumulative = p.max_cumulative;
  max_delta = p.max_delta;
  expiry = p.expires_at;
}

-- What the server's answer to the open transaction is worth.
unfoldable pub acknowledged : Option PaidResponse → MppOpenChannel → Outcome MppReceipt
unfolding receipt_for
acknowledged answer ch = do
  response ← answered answer
  fail_when (response.status == 402) payment_rejected "The server rejected the channel open."
  receipt_for response.receipt ch.channel_id

-- `throw failure`, which names the channel that may be open
abbrev pub named : Text → MppFailure → MppFailure
named channel_id (mpp code message _) = mpp code message (some channel_id)
named channel_id e =
    mpp invalid_challenge "Channel open failed after the signed transaction was sent."
      (some channel_id)

-- The `catch` before and after the transaction was handed over. The key is revoked in both.
unfoldable pub roll_back :
    Text → MppOpenChannel → MppFailure → Client → Outcome FetchResult × Client
roll_back id ch e c = (
  thrown e,
  record c {
    active = none;
    channels = without_channel ch.channel_id c.channels;
    keys = (revoke id c.keys).1;
  },
)

unfoldable pub strand : Text → Active → MppFailure → Client → Outcome FetchResult × Client
strand id a e c = (
  thrown (named a.channel.channel_id e),
  record c { active = some (record a { key_id = none }); keys = (revoke id c.keys).1 },
)

abbrev pub opened : MppOpenChannel → StoredKey → Active
opened ch k = record {
  channel = ch;
  key_id = some k.id;
  key_address = k.address;
  last_voucher = none;
}

abbrev pub channel_of :
    Crypto → MppSessionPolicy → Text → SessionRequest → StoredKey → ℕ → MppOpenChannel
channel_of x p signer s k salt = record {
  cluster = s.cluster;
  channel_id = x.derive_channel_pda (record {
    payer = signer;
    payee = s.recipient;
    mint = s.currency;
    authorized_signer = k.address;
    salt = salt;
    open_slot = s.recent_slot;
    program_address = s.channel_program;
  });
  payer = signer;
  payee = s.recipient;
  mint = s.currency;
  channel_program = s.channel_program;
  deposit = p.deposit;
  grace_period_seconds = s.grace_period_seconds;
  open_slot = s.recent_slot;
  salt = salt;
}

abbrev pub binding_of : MppSessionPolicy → MppOpenChannel → ChannelBinding
binding_of p ch = record {
  channel_id = ch.channel_id;
  deposit = p.deposit;
  open_slot = ch.open_slot;
  salt = ch.salt;
}

-- what follows on the manager's answer to the binding
unfoldable pub after_binding :
    Text
    → Active
    → MppReceipt
    → Client
    → Result (Unit {0}) × List StoredKey
    → Outcome FetchResult × Client
unfolding strand
after_binding id a receipt c (err e, keys) = strand id a (key_manager e) (record c { keys = keys })
after_binding id a receipt c (ok _, keys) =
    (passed (record { receipt = some receipt; channel = some a.channel }), record c { keys = keys })

module _ (x : Crypto) (p : MppSessionPolicy) where
  -- The binding of the key, once the server has acknowledged the channel.
  unfoldable pub bind_opened :
      Text → Active → Client → Outcome MppReceipt → Outcome FetchResult × Client
  unfolding strand after_binding
  bind_opened id a c (thrown e) = strand id a e c
  bind_opened id a c (passed receipt) =
      after_binding id a receipt c (bind_channel x id (binding_of p a.channel) c.keys)

  -- From the signed transaction on: `active` is set, and the request is sent.
  unfoldable pub hand_over :
      Sent → MppOpenChannel → StoredKey → Client → Outcome FetchResult × Client
  unfolding roll_back bind_opened acknowledged
  hand_over response ch k c =
      let c' : Client = record c {
        active = some (opened ch k);
        channels = c.channels ++ ch ∷ [];
      } in
      elim response [
        | unsent ↦ roll_back k.id ch outside c'
        | sent answer ↦ bind_opened k.id (opened ch k) c' (acknowledged answer ch)
      ]

  -- From the created key on.
  unfoldable pub sign_open :
      Option Bytes → Sent → MppOpenChannel → StoredKey → Client → Outcome FetchResult × Client
  unfolding hand_over
  sign_open none response ch k c = (thrown outside, record c { keys = (revoke k.id c.keys).1 })
  sign_open (some _) response ch k c = hand_over response ch k c

module _ (x : Crypto) (config : ManagerConfig) (p : MppSessionPolicy) (signer : Text) where
  -- what follows on the manager's answer to the creation
  unfoldable pub after_creation :
      OpenAnswers
      → SessionRequest
      → Client
      → Result StoredKey × List StoredKey
      → Outcome FetchResult × Client
  unfolding sign_open
  after_creation o s c (err e, keys) = (thrown (key_manager e), record c { keys = keys })
  after_creation o s c (ok k, keys) =
      sign_open x p o.transaction o.response (channel_of x p signer s k o.salt) k
        (record c { keys = keys })

  -- A checked challenge is answered by a fresh key and an open.
  unfoldable pub open_channel : OpenAnswers → SessionRequest → Client → Outcome FetchResult × Client
  unfolding after_creation
  open_channel o s c =
      after_creation o s c
        (create x config (key_policy p signer s) o.secret o.id o.created_ms c.keys)

  -- what follows on the demand
  unfoldable pub answer_demand :
      OpenAnswers → Outcome (Option SessionRequest) → Client → Outcome FetchResult × Client
  unfolding open_channel
  answer_demand o (thrown e) c = (thrown e, c)
  answer_demand o (passed none) c = (passed (record { receipt = none; channel = none }), c)
  answer_demand o (passed (some s)) c = open_channel o s c

  -- `performFetch` without an open channel, from the first request on
  unfoldable pub fetch_unopened : OpenAnswers → Client → Outcome FetchResult × Client
  unfolding demanded answer_demand
  fetch_unopened o c = answer_demand o (demanded p o) c
