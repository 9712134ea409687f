-- ===== src/Mpp/Client/Demand.antt =====
-- session.ts: the part of `performFetch` that reads and checks a challenge, before any key is made.
use connect_lib.Base.{
  ℕ, ◌+◌, ◌/◌, Bool, false, not, ◌||◌, Option, none, some, List, leb, ltb, ◌==◌, if◌then◌else◌,
  or_else, find?,
}
use connect_lib.Base.Bytes.{Bytes}
use connect_lib.Base.Text.{Text, text_eq}
use connect_lib.Session.Types.{passed, ◌>>=◌, ◌>>◌}
use connect_lib.Mpp.Types.{
  MppChallenge, SessionRequest, MintAccount, MppSessionPolicy, PaidResponse, Outcome, fail_when,
  answered, present, invalid_challenge, invalid_input,
}
use connect_lib.Mpp.Mint.{read_mint}
use connect_lib.Mpp.Request.{is_session, read_session_request}

-- The answer to the first request; the challenges are absent where `parsePaymentChallenges` throws.
pub record Offer : Type 0 where
  pub status : ℕ
  pub is_redirected : Bool
  pub is_same_origin : Bool
  pub challenges : Option (List MppChallenge)

-- What the RPC answers. The first is absent where `assertSolanaCluster` throws, and the second, the
-- address of the trusted program, where `assertTrustedChannelProgram` does.
pub record RpcAnswers : Type 0 where
  pub serves_cluster : Option (Unit {0})
  pub trusted_program : Option Text
  pub is_blockhash_valid : Option Bool
  pub mint : Option (Option MintAccount)

-- What becomes of the request that carries the open transaction.
pub data Sent : Type 0 where
  -- the transport throws before it has it
  unsent : Sent
  sent : Option PaidResponse → Sent

-- The fresh values that an open draws, the times at which it reads the clock, and what it is
-- answered. The transaction is absent where the signer throws or changes the open.
pub record OpenAnswers : Type 0 where
  pub offer : Option Offer
  pub rpc : RpcAnswers
  pub secret : Bytes
  pub id : Text
  pub salt : ℕ
  pub read_ms : ℕ
  pub checked_ms : ℕ
  pub created_ms : ℕ
  pub transaction : Option Bytes
  pub response : Sent

is_expired : Option ℕ → ℕ → Bool
is_expired none now = false
is_expired (some at) now = leb at now

-- From the answer to the challenge that will be paid, as it is read.
unfoldable pub choose : ℕ → Offer → Outcome SessionRequest
unfolding is_expired read_session_request
choose now offer = do
  fail_when (offer.is_redirected || not offer.is_same_origin) invalid_challenge
      "Payment challenge arrived through a redirect."
  challenges ← present offer.challenges invalid_challenge "The 402 carries no Payment challenge."
  challenge ←
      present (find? is_session challenges) invalid_challenge
        "No Solana session challenge was offered."
  fail_when (is_expired challenge.expires_at now) invalid_challenge
      "The Solana session challenge has expired."
  read_session_request challenge

abbrev pub minimum_grace : MppSessionPolicy → ℕ
minimum_grace p = or_else p.minimum_grace_period_seconds 3600

unfoldable pub is_other_program : Option Text → Text → Bool
is_other_program none t = false
is_other_program (some s) t = not (text_eq s t)

-- The tests of a read challenge against the app's policy and what the RPC answers.
unfoldable pub check_offer : MppSessionPolicy → RpcAnswers → ℕ → SessionRequest → Outcome (Unit {0})
unfolding read_mint is_other_program
check_offer p rpc now s = do
  fail_when (not (text_eq s.currency p.mint)) invalid_challenge
      "The challenged mint is not the app policy mint."
  answered rpc.serves_cluster
  program ← answered rpc.trusted_program
  fail_when (not (text_eq s.channel_program program)) invalid_challenge
      "The challenge channelProgram is not the app-trusted program."
  valid ← answered rpc.is_blockhash_valid
  fail_when (not valid) invalid_challenge
      "The challenged recentBlockhash is not valid on the app RPC."
  account ← answered rpc.mint
  mint ← present account invalid_challenge "The challenged mint account does not exist."
  details ← answered (read_mint mint)
  fail_when
      (not (details.decimals == s.decimals)
        || is_other_program s.token_program details.token_program)
      invalid_challenge "The challenge does not match the mint account."
  fail_when
      (not (text_eq s.recipient p.recipient)
        || not (s.amount == p.amount)
        || ltb s.grace_period_seconds (minimum_grace p)
        || ltb p.deposit s.minimum_deposit)
      invalid_challenge "The session challenge exceeds the app policy."
  fail_when (ltb p.expires_at (now / 1000 + s.grace_period_seconds)) invalid_input
      "Voucher expiry must outlast the forced-close settlement window."

-- The challenge that the first answer asks to be paid; none where it asks for no payment.
unfoldable pub demanded : MppSessionPolicy → OpenAnswers → Outcome (Option SessionRequest)
unfolding choose check_offer
demanded p o = do
  offer ← answered o.offer
  if offer.status == 402
      then (do s ← choose o.read_ms offer; check_offer p o.rpc o.checked_ms s; passed (some s))
      else passed none
