-- ===== src/Mpp/Request.antt =====
-- session.ts: `readSessionRequest`, which reads a Solana session challenge and refuses all others.
use connect_lib.Base.{
  ℕ, Bool, true, false, not, ◌&&◌, ◌||◌, Option, none, some, ltb, ◌==◌, if◌then◌else◌,
}
use connect_lib.Base.Text.{Text, codes, text_eq}
use connect_lib.Session.TypedData.{is_decimal}
use connect_lib.Units.{value_from}
use connect_lib.Voucher.Address.{is_valid_solana_address}
use connect_lib.Voucher.Manager.{solana_mainnet, solana_devnet}
use connect_lib.Voucher.Message.{u64_max}
use connect_lib.Session.Types.{passed, ◌>>=◌, ◌>>◌}
use connect_lib.Mpp.Mint.{is_token_program}
use connect_lib.Mpp.Types.{
  Raw, MethodDetails, MppChallenge, ChallengeRequest, SessionRequest, Outcome, failed, fail_when,
  present, invalid_challenge,
}

-- the range of `decimal`: a u64, and 0 only where it is allowed
in_u64 : Bool → ℕ → Outcome ℕ
in_u64 allow_zero n =
    if (not allow_zero && n == 0) || ltb u64_max n
    then failed invalid_challenge "not a u64."
    else passed n

-- `decimal`
pub decimal_of : Bool → Raw → Outcome ℕ
unfolding in_u64
decimal_of allow_zero (Raw.text t) =
    if is_decimal t
    then in_u64 allow_zero (value_from 0 t)
    else failed invalid_challenge "not a decimal integer string."
decimal_of allow_zero _ = failed invalid_challenge "not a decimal integer string."

-- `address`
pub address_of : Raw → Outcome Text
address_of (Raw.text t) =
    if is_valid_solana_address t then passed t else failed invalid_challenge "not a Solana address."
address_of _ = failed invalid_challenge "not a Solana address."

is_absent : Raw → Bool
is_absent Raw.absent = true
is_absent _ = false

is_text : Text → Raw → Bool
is_text t (Raw.text s) = text_eq s t
is_text t _ = false

is_true : Raw → Bool
is_true (Raw.flag b) = b
is_true _ = false

is_flag : Raw → Bool
is_flag (Raw.flag b) = true
is_flag _ = false

is_empty : Raw → Bool
is_empty (Raw.items n) = n == 0
is_empty _ = false

-- `NETWORKS[network]`
cluster_of : Raw → Outcome Text
unfolding is_text
cluster_of network =
    if is_text (codes "mainnet") network
    then passed solana_mainnet
    else if is_text (codes "devnet") network
    then passed solana_devnet
    else failed invalid_challenge "network is not supported."

-- The test on the decimals, then their value.
decimals_of : Raw → Outcome ℕ
decimals_of (Raw.whole n) =
    if ltb 9 n then failed invalid_challenge "methodDetails.decimals is not 0 to 9." else passed n
decimals_of _ = failed invalid_challenge "methodDetails.decimals is not 0 to 9."

grace_of : Raw → Outcome ℕ
grace_of (Raw.whole n) =
    if n == 0 || ltb 0xffffffff n
    then failed invalid_challenge "gracePeriodSeconds is not a positive u32."
    else passed n
grace_of _ = failed invalid_challenge "gracePeriodSeconds is not a positive u32."

token_program_of : Raw → Outcome (Option Text)
token_program_of Raw.absent = passed none
token_program_of (Raw.text t) =
    if is_token_program t
    then passed (some t)
    else failed invalid_challenge "tokenProgram is not a supported token program."
token_program_of _ = failed invalid_challenge "tokenProgram is not a supported token program."

-- The fee payer's key, which stands only with `feePayer: true`.
fee_payer_of : Raw → Raw → Outcome (Option Text)
unfolding is_flag is_true is_absent address_of
fee_payer_of fee_payer key = do
  fail_when (not (is_absent fee_payer) && not (is_flag fee_payer)) invalid_challenge
      "feePayer is not a boolean."
  if is_true fee_payer
      then (address_of key >>= λ (a : Text). passed (some a))
      else (fail_when (not (is_absent key)) invalid_challenge "feePayerKey requires feePayer=true."
          >> passed none)

minimum_deposit_of : Raw → Outcome ℕ
unfolding decimal_of
minimum_deposit_of Raw.absent = passed 0
minimum_deposit_of raw = decimal_of true raw

-- The features of a channel that the client does not take.
check_details : MethodDetails → Outcome (Unit {0})
unfolding is_absent is_text is_empty
check_details d = do
  fail_when (not (is_absent d.channel_id)) invalid_challenge
      "Resuming an existing channel is not supported."
  fail_when (not (is_absent d.voucher_signer) && not (is_text (codes "client") d.voucher_signer))
      invalid_challenge "Only client-signed vouchers are supported."
  fail_when (not (is_absent d.operator)) invalid_challenge
      "operator is forbidden for client-signed vouchers."
  fail_when (not (is_absent d.distribution_splits) && not (is_empty d.distribution_splits))
      invalid_challenge "Only the single challenge recipient may receive settlement."

read_details : ChallengeRequest → MethodDetails → Outcome SessionRequest
unfolding cluster_of check_details decimals_of grace_of token_program_of fee_payer_of decimal_of
    address_of minimum_deposit_of
read_details request d = do
  cluster ← cluster_of d.network
  check_details d
  decimals ← decimals_of d.decimals
  grace ← grace_of d.grace_period_seconds
  token ← token_program_of d.token_program
  fee_payer_key ← fee_payer_of d.fee_payer d.fee_payer_key
  amount ← decimal_of false request.amount
  currency ← address_of request.currency
  recipient ← address_of request.recipient
  program ← address_of d.channel_program
  blockhash ← address_of d.recent_blockhash
  slot ← decimal_of true d.recent_slot
  minimum ← minimum_deposit_of request.minimum_deposit
  passed (record {
    amount = amount;
    currency = currency;
    recipient = recipient;
    cluster = cluster;
    channel_program = program;
    recent_blockhash = blockhash;
    recent_slot = slot;
    decimals = decimals;
    token_program = token;
    fee_payer_key = fee_payer_key;
    grace_period_seconds = grace;
    minimum_deposit = minimum;
  })

abbrev pub is_session : MppChallenge → Bool
is_session c = text_eq c.method (codes "solana") && text_eq c.intent (codes "session")

-- `readSessionRequest`
unfoldable pub read_session_request : MppChallenge → Outcome SessionRequest
unfolding read_details
read_session_request c = do
  fail_when (not (is_session c)) invalid_challenge
      "The challenge is not a Solana session challenge."
  details ← present c.request.method_details invalid_challenge "methodDetails is missing."
  read_details c.request details
