-- ===== src/Authorization/Compile.antt =====
-- authorization/index.ts: the compilation of an authorization to the scope of a Solana key and to a
-- payment session.
pub mod Faithful
use connect_lib.Base.{
  ℕ, Bool, true, false, not, ◌&&◌, ◌||◌, Option, none, some, List, [], ◌∷◌, leb, ltb, ◌==◌,
  if◌then◌else◌, all, filter, length, is_some, or_else,
}
use connect_lib.Base.Sets.{has}
use connect_lib.Base.Text.{Text, text_eq}
use connect_lib.Authorization.Names.{
  Codec, ParsedAsset, parse_asset, canonical_solana_address, is_safe,
}
use connect_lib.Authorization.Types.{
  Rail, mpp_session, rail_eq, GrantPeriod, Grant, Authorization, Invalid, Validated, valid, invalid,
}
use connect_lib.Authorization.Validate.{has_period, validate_authorization}
use connect_lib.Session.Types.{Checked, passed, thrown, ◌>>=◌, ◌>>◌, refuse_when}
use connect_lib.Voucher.Address.{is_solana_caip2}
use connect_lib.Voucher.Message.{u64_max, i64_max}
use connect_lib.Voucher.Types.{ChannelVoucherPolicy}

pub data CompileRefusal : Type 0 where
  unvalidated : Invalid → CompileRefusal
  on_chain_unavailable not_before_inexpressible invalid_cluster one_grant_required : CompileRefusal
  rail_inexpressible over_u64 period_unenforced mixed_rails one_recipient_required : CompileRefusal
  count_unenforced invalid_context deposit_short out_of_bounds invalid_grace_period : CompileRefusal

pub record SolanaSessionKeyScope : Type 0 where
  pub cluster : Text
  pub mint : Text
  pub budget : ℕ
  pub max_per_payment : ℕ
  pub allowed_recipients : List Text
  pub expiry : ℕ
  pub max_tx_count : Option ℕ
  pub period : Option GrantPeriod

pub record MppSessionCompileContext : Type 0 where
  pub channel_program : Text
  pub payer : Text
  pub price_per_unit : ℕ
  pub deposit : ℕ
  pub minimum_grace_period_seconds : Option ℕ

pub record CompiledMppSessionPolicy : Type 0 where
  pub recipient : Text
  pub mint : Text
  pub amount : ℕ
  pub deposit : ℕ
  pub max_cumulative : ℕ
  pub max_delta : ℕ
  pub expires_at : ℕ
  pub minimum_grace_period_seconds : Option ℕ

pub record CompiledMppSession : Type 0 where
  pub voucher : ChannelVoucherPolicy
  pub client : CompiledMppSessionPolicy

-- The only element, of a list of one.
unfoldable pub sole : List Grant → Checked CompileRefusal Grant
sole (g ∷ []) = passed g
sole _ = thrown CompileRefusal.one_grant_required

-- `recipients[0]`, of a list that is not empty
abbrev pub first_recipient : List Text → Text
first_recipient [] = []
first_recipient (r ∷ rs) = r

unfoldable pub without_start : Authorization → Option ℕ → Checked CompileRefusal Authorization
without_start a none = passed a
without_start a (some from) = thrown CompileRefusal.not_before_inexpressible

unfoldable pub expressible : Validated Authorization → Checked CompileRefusal Authorization
expressible (invalid reason) = thrown (CompileRefusal.unvalidated reason)
expressible (valid a) = without_start a a.not_before

abbrev pub is_solana_rail : Rail → Bool
is_solana_rail mpp_session = false
is_solana_rail _ = true

abbrev pub is_grace_period : Option ℕ → Bool
is_grace_period none = true
is_grace_period (some n) = is_safe n && ltb 0 n

module _ (x : Codec) where
  -- `validatedForCompile`
  unfoldable pub validated_for_compile : Authorization → Checked CompileRefusal Authorization
  validated_for_compile a = expressible (validate_authorization x a)

  -- `parseAsset(grant.asset)?.chain === chain`
  unfoldable pub is_on : Text → Grant → Bool
  is_on chain g = elim (parse_asset x g.asset) [
    | none ↦ false
    | some asset ↦ text_eq asset.chain chain
  ]

  -- `parseAsset(grant.asset).address`; an asset of Solana has one.
  unfoldable pub mint_of : Grant → Text
  mint_of g = elim (parse_asset x g.asset) [ none ↦ [] | some asset ↦ or_else asset.address [] ]

  -- `compileSolanaSessionScope`
  unfoldable pub compile_solana_session_scope :
      Authorization → Text → Bool → Checked CompileRefusal SolanaSessionKeyScope
  compile_solana_session_scope a cluster require_on_chain = do
    refuse_when require_on_chain CompileRefusal.on_chain_unavailable
    a' ← validated_for_compile a
    refuse_when (not (is_solana_caip2 cluster)) CompileRefusal.invalid_cluster
    g ← sole (filter (is_on cluster) a'.grants)
    refuse_when (not (all is_solana_rail g.rails)) CompileRefusal.rail_inexpressible
    refuse_when (ltb u64_max g.max_total || ltb u64_max g.max_per_payment) CompileRefusal.over_u64
    passed (record {
      cluster = cluster;
      mint = mint_of g;
      budget = g.max_total;
      max_per_payment = g.max_per_payment;
      allowed_recipients = g.recipients;
      expiry = a'.expires_at;
      max_tx_count = g.max_count;
      period = g.period;
    })

  -- The canonical program and payer of a context.
  unfoldable pub context_addresses :
      Option Text → Option Text → Checked CompileRefusal (Text × Text)
  context_addresses (some program) (some payer) = passed (program, payer)
  context_addresses _ _ = thrown CompileRefusal.invalid_context

  unfoldable pub mpp_session_of :
      Text → MppSessionCompileContext → Authorization → Grant → Text → Text → CompiledMppSession
  mpp_session_of cluster context a g program payer = record {
    voucher = record {
      cluster = cluster;
      channel_program = program;
      payer = payer;
      mint = mint_of g;
      payee = first_recipient g.recipients;
      price_per_unit = context.price_per_unit;
      max_cumulative = g.max_total;
      max_delta = g.max_per_payment;
      expiry = a.expires_at;
    };
    client = record {
      recipient = first_recipient g.recipients;
      mint = mint_of g;
      amount = context.price_per_unit;
      deposit = context.deposit;
      max_cumulative = g.max_total;
      max_delta = g.max_per_payment;
      expires_at = a.expires_at;
      minimum_grace_period_seconds = context.minimum_grace_period_seconds;
    };
  }

  -- What `compileMppSession` tests of the grant, and of its context.
  unfoldable pub compile_mpp_grant :
      Text
      → MppSessionCompileContext
      → Authorization
      → Grant
      → Checked CompileRefusal CompiledMppSession
  compile_mpp_grant cluster context a g = do
    refuse_when (has_period g.period) CompileRefusal.period_unenforced
    refuse_when (not (length g.rails == 1)) CompileRefusal.mixed_rails
    refuse_when (not (length g.recipients == 1)) CompileRefusal.one_recipient_required
    refuse_when (is_some g.max_count) CompileRefusal.count_unenforced
    addresses ←
        context_addresses (canonical_solana_address x context.channel_program)
          (canonical_solana_address x context.payer)
    refuse_when (context.price_per_unit == 0 || ltb u64_max context.price_per_unit)
        CompileRefusal.invalid_context
    refuse_when (ltb context.deposit g.max_total || ltb u64_max context.deposit)
        CompileRefusal.deposit_short
    refuse_when (ltb u64_max g.max_total || ltb i64_max a.expires_at) CompileRefusal.out_of_bounds
    refuse_when (not (is_grace_period context.minimum_grace_period_seconds))
        CompileRefusal.invalid_grace_period
    passed (mpp_session_of cluster context a g addresses.0 addresses.1)

  -- `compileMppSession`
  unfoldable pub compile_mpp_session :
      Authorization
      → Text
      → MppSessionCompileContext
      → Bool
      → Checked CompileRefusal CompiledMppSession
  compile_mpp_session a cluster context require_on_chain = do
    refuse_when require_on_chain CompileRefusal.on_chain_unavailable
    a' ← validated_for_compile a
    refuse_when (not (is_solana_caip2 cluster)) CompileRefusal.invalid_cluster
    g ← sole (filter (λ g. is_on cluster g && has mpp_session g.rails) a'.grants)
    compile_mpp_grant cluster context a' g
