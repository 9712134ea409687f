-- ===== src/Mpp/Tests/Inputs.antt =====
-- The inputs of the tests.
use connect_lib.Authorization.Names.{Codec}
use connect_lib.Authorization.Types.{mpp_session, Authorization}
use connect_lib.Authorization.Compile.{MppSessionCompileContext, CompiledMppSession}
use connect_lib.Base.{Bool, true, false, Option, none, some, [], ◌∷◌, ◌++◌, replicate}
use connect_lib.Base.Bytes.{Bytes}
use connect_lib.Base.Text.{Text, codes}
use connect_lib.Voucher.Types.{Crypto, ManagerConfig, StoredKey, KeyStatus}
use connect_lib.Voucher.Manager.{solana_channel_program, solana_mainnet, SignedVoucher}
use connect_lib.Mpp.Types.{
  Raw, MethodDetails, MppChallenge, SessionRequest, MppSessionPolicy, MppOpenChannel,
  MppSessionSettlementBinding, MppReceipt, PaidResponse,
}
use connect_lib.Mpp.Mint.{token_program}
use connect_lib.Mpp.Client.{Active, Client, new_client}
use connect_lib.Mpp.Client.Demand.{OpenAnswers, sent}
use connect_lib.Mpp.Client.Run.{Request}
use connect_lib.Mpp.Client.Opens.{opened_channel, bound_key, opened_client}

abbrev pub channel_id : Text
channel_id = replicate 32 1

abbrev pub address : Text
address = solana_channel_program

abbrev pub toy : Crypto
toy = record {
  get_public_key = λ s. s;
  sign = λ m s. s;
  encode58 = λ b. b;
  decode58 = λ t. some t;
  derive_channel_pda = λ i. channel_id;
  encrypt = λ s r. s;
  decrypt = λ s r. some s;
}

abbrev pub config : ManagerConfig
config = record { channel_program_overrides = [] }

abbrev pub policy : MppSessionPolicy
policy = record {
  recipient = address;
  mint = address;
  amount = 3;
  deposit = 80;
  max_cumulative = 60;
  max_delta = 50;
  expires_at = 10000;
  minimum_grace_period_seconds = none;
}

abbrev pub details : MethodDetails
details = record {
  network = Raw.text (codes "mainnet");
  channel_id = Raw.absent;
  voucher_signer = Raw.absent;
  operator = Raw.absent;
  distribution_splits = Raw.absent;
  decimals = Raw.whole 6;
  grace_period_seconds = Raw.whole 3600;
  token_program = Raw.absent;
  fee_payer = Raw.absent;
  fee_payer_key = Raw.absent;
  channel_program = Raw.text address;
  recent_blockhash = Raw.text address;
  recent_slot = Raw.text (codes "5");
}

abbrev pub challenge : MppChallenge
challenge = record {
  method = codes "solana";
  intent = codes "session";
  expires_at = none;
  request = record {
    amount = Raw.text (codes "3");
    currency = Raw.text address;
    recipient = Raw.text address;
    minimum_deposit = Raw.absent;
    method_details = some details;
  };
}

abbrev pub request : SessionRequest
request = record {
  amount = 3;
  currency = address;
  recipient = address;
  cluster = solana_mainnet;
  channel_program = address;
  recent_blockhash = address;
  recent_slot = 5;
  decimals = 6;
  token_program = none;
  fee_payer_key = none;
  grace_period_seconds = 3600;
  minimum_deposit = 0;
}

abbrev pub receipt : MppReceipt
receipt = record { method = codes "solana"; intent = codes "session"; reference = channel_id }

abbrev pub accepted : Option PaidResponse
accepted = some (record { status = 200; receipt = some receipt })

abbrev pub answers : OpenAnswers
answers = record {
  offer = some (record {
    status = 402;
    is_redirected = false;
    is_same_origin = true;
    challenges = some (challenge ∷ []);
  });
  rpc = record {
    serves_cluster = some tt;
    trusted_program = some address;
    is_blockhash_valid = some true;
    mint = some (
        some
          (record { owner = token_program; contents = replicate 44 0 ++ 6 ∷ 1 ∷ replicate 36 0 }));
  };
  secret = replicate 32 7;
  id = codes "k";
  salt = 9;
  read_ms = 0;
  checked_ms = 0;
  created_ms = 0;
  transaction = some [];
  response = sent accepted;
}

abbrev pub empty : Client
empty = new_client []

abbrev pub open_client : Client
open_client = opened_client toy policy address answers request empty

abbrev pub first : Request
first = record { units = none; now_ms = 0; response = none; open_answers = answers }

-- A request of ten units over the open channel.
abbrev pub second : Request
second = record {
  units = some 10;
  now_ms = 1000;
  response = accepted;
  open_answers = record answers { id = codes "j" };
}

abbrev pub channel : MppOpenChannel
channel = opened_channel toy policy address answers request

abbrev pub voucher : SignedVoucher
voucher = record {
  voucher = record { channel_id = channel_id; cumulative_amount = 30; expires_at = 10000 };
  signature = replicate 32 7;
}

abbrev pub paying : Active
paying = record {
  channel = channel;
  key_id = some (codes "k");
  key_address = replicate 32 7;
  last_voucher = some voucher;
}

abbrev pub paid_key : StoredKey
paid_key = record (bound_key toy policy address answers request) { last_cumulative = 30 }

abbrev pub paid : Client
paid = record {
  pending_units = 0;
  active = some paying;
  channels = channel ∷ [];
  keys = paid_key ∷ [];
}

abbrev pub ended_client : Client
ended_client = record {
  pending_units = 0;
  active = none;
  channels = [];
  keys = record paid_key { status = KeyStatus.revoked } ∷ [];
}

abbrev pub binding : Bool → MppSessionSettlementBinding
binding forced = record {
  cluster = solana_mainnet;
  channel_id = channel_id;
  channel_program = address;
  expected_settled = 30;
  after_forced_close = forced;
}

-- An account that is closing since second 500.
abbrev pub closing : Bytes
closing = 1 ∷ 1 ∷ 255 ∷ 2 ∷ replicate 32 0 ++ 244 ∷ 1 ∷ replicate 6 0

abbrev pub codec : Codec
codec = record { keccak = λ b. []; encode58 = λ b. address; decode58 = λ t. some (replicate 32 1) }

-- An authorization for a payment session on the terms of `policy`.
abbrev pub subscription : Authorization
subscription = record {
  principal = solana_mainnet ++ codes ":" ++ address;
  label = none;
  grants =
      record {
        asset = solana_mainnet ++ codes "/token:" ++ address;
        recipients = address ∷ [];
        max_per_payment = 50;
        max_total = 60;
        max_count = none;
        period = none;
        rails = mpp_session ∷ [];
      }
      ∷ [];
  not_before = none;
  expires_at = 10000;
}

abbrev pub context : MppSessionCompileContext
context = record {
  channel_program = address;
  payer = address;
  price_per_unit = 3;
  deposit = 80;
  minimum_grace_period_seconds = none;
}

abbrev pub compiled : CompiledMppSession
compiled = record {
  voucher = record {
    cluster = solana_mainnet;
    channel_program = address;
    payer = address;
    mint = address;
    payee = address;
    price_per_unit = 3;
    max_cumulative = 60;
    max_delta = 50;
    expiry = 10000;
  };
  client = record {
    recipient = address;
    mint = address;
    amount = 3;
    deposit = 80;
    max_cumulative = 60;
    max_delta = 50;
    expires_at = 10000;
    minimum_grace_period_seconds = none;
  };
}
