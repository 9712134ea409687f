-- ===== src/Authorization/Compile/Faithful.antt =====
-- authorization/index.ts: what a payment session is compiled to.
use connect_lib.Base.{
  ◌≤◌, ◌<◌, ◌≡◌, refl, ap, subst, inl, inr, sym, or_else, Option, some, Bool, true, false, not,
  ◌&&◌, ◌||◌, none, List, [], ◌∷◌, arith, ltb, ◌==◌, filter, length, is_some, Bool-cases,
  Option-cases, All,
}
use connect_lib.Base.Sets.{has}
use connect_lib.Base.Text.{Text, text_eq_iff}
use connect_lib.Authorization.Names.{Codec, ParsedAsset, parse_asset, canonical_solana_address}
use connect_lib.Authorization.Types.{
  Rail, mpp_session, rail_eq, same_rail_iff, Grant, Authorization, Validated, valid, invalid,
}
use connect_lib.Authorization.Validate.{has_period, validate_authorization}
use connect_lib.Authorization.Validate.Canonical.{
  IsLimited, AreCanonical, validate_authorization-IsAccepted,
}
use connect_lib.Authorization.Compile.{
  MppSessionCompileContext, CompiledMppSession, sole, first_recipient, without_start, expressible,
  validated_for_compile, is_on, mint_of, is_grace_period, context_addresses, mpp_session_of,
  compile_mpp_grant, compile_mpp_session,
}
use connect_lib.Session.Types.{passed}
use connect_lib.Session.Passed.{>>=-eq-passed, refuse_when-eq-passed}
use connect_lib.Voucher.Address.{is_solana_caip2}
use connect_lib.Voucher.Message.{u64_max, i64_max}

-- A voucher policy and its client's limits say what one grant for payment sessions says.
pub record IsFaithful (x : Codec) (a : Authorization) (cluster : Text)
    (context : MppSessionCompileContext) (m : CompiledMppSession) : Type 0 where
  pub canonical : Authorization
  pub validated : validate_authorization x a ≡ valid canonical
  pub grant : Grant
  pub only :
      filter (λ g. is_on x cluster g && has mpp_session g.rails) canonical.grants ≡ grant ∷ []
  pub asset : ParsedAsset
  pub parsed : parse_asset x grant.asset ≡ some asset
  pub chain : asset.chain ≡ cluster
  pub mint : m.voucher.mint ≡ or_else asset.address []
  pub program : canonical_solana_address x context.channel_program ≡ some m.voucher.channel_program
  pub payer : canonical_solana_address x context.payer ≡ some m.voucher.payer
  pub recipients : grant.recipients ≡ m.voucher.payee ∷ []
  pub rails : grant.rails ≡ mpp_session ∷ []
  pub unlimited : (grant.max_count ≡ none) × (grant.period ≡ none)
  pub total : (m.voucher.max_cumulative ≡ grant.max_total) × (grant.max_total ≤ context.deposit)
  pub each : (m.voucher.max_delta ≡ grant.max_per_payment) × (0 < grant.max_per_payment)
  pub delta : m.voucher.max_delta ≤ m.voucher.max_cumulative
  pub price : (0 < m.voucher.price_per_unit) × (m.voucher.price_per_unit ≤ u64_max)
  pub deposit : (m.client.deposit ≡ context.deposit) × (context.deposit ≤ u64_max)
  pub expiry : (m.voucher.expiry ≡ canonical.expires_at) × (m.voucher.expiry ≤ i64_max)
  pub begins : canonical.not_before ≡ none
  pub terms :
      (m.voucher.price_per_unit ≡ context.price_per_unit)
      × (m.client.minimum_grace_period_seconds ≡ context.minimum_grace_period_seconds)
  pub same :
      (m.client.max_cumulative ≡ m.voucher.max_cumulative)
      × (m.client.max_delta ≡ m.voucher.max_delta)
      × (m.client.recipient ≡ m.voucher.payee)
      × (m.client.mint ≡ m.voucher.mint)
      × (m.client.amount ≡ m.voucher.price_per_unit)
      × (m.client.expires_at ≡ m.voucher.expiry)
  pub on_cluster : (m.voucher.cluster ≡ cluster) × (is_solana_caip2 cluster ≡ true)

sole-eq-passed : (gs : List Grant) (g : Grant) → sole gs ≡ passed g → gs ≡ g ∷ []
unfolding sole
sole-eq-passed [] g h = cc
sole-eq-passed (f ∷ []) g h = cc
sole-eq-passed (f ∷ h ∷ gs) g k = cc

All-filter :
    (P : Grant → Type 0) (p : Grant → Bool) (gs : List Grant) → All P gs → All P (filter p gs)
All-filter P p [] h = tt
All-filter P p (g ∷ gs) (here, rest) = elim (Bool-cases (p g)) [
  | inl kept ↦ rw kept (here, All-filter P p gs rest)
  | inr dropped ↦ rw dropped (All-filter P p gs rest)
]

AreCanonical-IsLimited :
    (x : Codec) (gs gs' : List Grant) → AreCanonical x gs gs' → All IsLimited gs'
AreCanonical-IsLimited x [] [] h = tt
AreCanonical-IsLimited x [] (g' ∷ gs') h = absurd h
AreCanonical-IsLimited x (g ∷ gs) [] h = absurd h
AreCanonical-IsLimited x (g ∷ gs) (g' ∷ gs') (here, rest) =
    (here.limited, AreCanonical-IsLimited x gs gs' rest)

All-matching : (p : Grant → Bool) (gs : List Grant) → All (λ g. p g ≡ true) (filter p gs)
All-matching p [] = tt
All-matching p (g ∷ gs) = elim (Bool-cases (p g)) [
  | inl kept ↦ rw kept (kept, All-matching p gs)
  | inr dropped ↦ rw dropped (All-matching p gs)
]

one_rail :
    (rails : List Rail)
    → (length rails == 1) ≡ true
    → has mpp_session rails ≡ true
    → rails ≡ mpp_session ∷ []
unfolding has
one_rail [] h k = absurd (ground (arith, h))
one_rail (r ∷ []) h k = ground (arith, same_rail_iff r mpp_session)
one_rail (r ∷ s ∷ rails) h k = absurd (ground (arith, h))

one_recipient : (rs : List Text) → (length rs == 1) ≡ true → rs ≡ first_recipient rs ∷ []
one_recipient [] h = absurd (ground (arith, h))
one_recipient (r ∷ []) h = refl
one_recipient (r ∷ s ∷ rs) h = absurd (ground (arith, h))

expressible-eq-passed :
    (v : Validated Authorization) (a : Authorization)
    → expressible v ≡ passed a
    → (v ≡ valid a) × (a.not_before ≡ none)
unfolding expressible without_start
expressible-eq-passed (invalid reason) a h = cc
expressible-eq-passed (valid b) a h = elim (Option-cases b.not_before) [
  | inl unset ↦
      let same : b ≡ a = ground (arith, rw unset at h) in
      (ap valid same, subst (λ (c : Authorization). c.not_before ≡ none) same unset)
  | inr (from, is) ↦ absurd (ground (arith, rw is at h))
]

-- What the tests of the grant and its context have tested.
record IsCompiled (x : Codec) (cluster : Text) (context : MppSessionCompileContext)
    (a : Authorization) (g : Grant) (m : CompiledMppSession) : Type 0 where
  program : Text
  payer : Text
  canonical :
      (canonical_solana_address x context.channel_program ≡ some program)
      × (canonical_solana_address x context.payer ≡ some payer)
  is : m ≡ mpp_session_of x cluster context a g program payer
  period : has_period g.period ≡ false
  one : (length g.rails == 1) ≡ true
  payee : (length g.recipients == 1) ≡ true
  count : is_some g.max_count ≡ false
  price : (0 < context.price_per_unit) × (context.price_per_unit ≤ u64_max)
  deposit : (g.max_total ≤ context.deposit) × (context.deposit ≤ u64_max)
  bounds : a.expires_at ≤ i64_max

context_addresses-eq-passed :
    (x : Codec) (a b : Option Text) (program payer : Text)
    → context_addresses x a b ≡ passed (program, payer)
    → (a ≡ some program) × (b ≡ some payer)
unfolding context_addresses
context_addresses-eq-passed x none b program payer h = cc
context_addresses-eq-passed x (some p) none program payer h = cc
context_addresses-eq-passed x (some p) (some q) program payer h =
    (ground (arith, h), ground (arith, h))

-- A grant on a chain has an asset of that chain.
is_on-true :
    (x : Codec) (chain : Text) (g : Grant)
    → is_on x chain g ≡ true
    → (asset : ParsedAsset) × (parse_asset x g.asset ≡ some asset)
      × (asset.chain ≡ chain)
      × (mint_of x g ≡ or_else asset.address [])
unfolding is_on mint_of
is_on-true x chain g h = elim (Option-cases (parse_asset x g.asset)) [
  | inl unread ↦ absurd (cc (sym (rw (unread, is_on) at h)))
  | inr (asset, read) ↦ (
    asset,
    read,
    (text_eq_iff asset.chain chain).0 (rw (read, is_on) at h),
    rw (read, mint_of) refl,
  )
]

module _ (x : Codec) (cluster : Text) (context : MppSessionCompileContext) where
  compile_mpp_grant-IsCompiled :
      (a : Authorization) (g : Grant) (m : CompiledMppSession)
      → compile_mpp_grant x cluster context a g ≡ passed m
      → IsCompiled x cluster context a g m
  unfolding compile_mpp_grant
  compile_mpp_grant-IsCompiled a g m h =
      let (period, h₁) = refuse_when-eq-passed _ (has_period g.period) _ h in
      let (one, h₂) = refuse_when-eq-passed _ (not (length g.rails == 1)) _ h₁ in
      let (payee, h₃) = refuse_when-eq-passed _ (not (length g.recipients == 1)) _ h₂ in
      let (count, h₄) = refuse_when-eq-passed _ (is_some g.max_count) _ h₃ in
      let ((program, payer), named, h₅) =
        >>=-eq-passed _
          (context_addresses x (canonical_solana_address x context.channel_program)
            (canonical_solana_address x context.payer))
          h₄ in
      let (price, h₆) =
        refuse_when-eq-passed _ (context.price_per_unit == 0 || ltb u64_max context.price_per_unit)
          _ h₅ in
      let (deposit, h₇) =
        refuse_when-eq-passed _ (ltb context.deposit g.max_total || ltb u64_max context.deposit) _
          h₆ in
      let (bounds, h₈) =
        refuse_when-eq-passed _ (ltb u64_max g.max_total || ltb i64_max a.expires_at) _ h₇ in
      let (grace, h₉) =
        refuse_when-eq-passed _ (not (is_grace_period context.minimum_grace_period_seconds)) _ h₈ in
      record {
        program = program;
        payer = payer;
        canonical =
            context_addresses-eq-passed x (canonical_solana_address x context.channel_program)
              (canonical_solana_address x context.payer) program payer named;
        is = ground arith;
        period = period;
        one = ground arith;
        payee = ground arith;
        count = count;
        price = (ground arith, ground arith);
        deposit = (ground arith, ground arith);
        bounds = ground arith;
      }

  -- A payment session that is compiled says what the authorization says: it is of the only grant of
  -- the canonical authorization for payment sessions on the cluster, pays in the token of that
  -- grant's asset, through the canonical forms of the context's program and payer, that grant's only
  -- recipient no more at once and no more in total than the grant, at the context's price and with
  -- its grace period, ends when the authorization does, keeps the integer bounds of vouchers, and
  -- the deposit covers it; nothing that it could not enforce is set.
  pub compile_mpp_session-IsFaithful :
      (a : Authorization) (require_on_chain : Bool) (m : CompiledMppSession)
      → compile_mpp_session x a cluster context require_on_chain ≡ passed m
      → IsFaithful x a cluster context m
  unfolding compile_mpp_session validated_for_compile mpp_session_of
  compile_mpp_session-IsFaithful a require_on_chain m h =
      let (on_device, h₁) = refuse_when-eq-passed _ require_on_chain _ h in
      let (a', ok, h₂) = >>=-eq-passed _ (expressible (validate_authorization x a)) h₁ in
      let (accepted, begins) = expressible-eq-passed (validate_authorization x a) a' ok in
      let (caip, h₃) = refuse_when-eq-passed _ (not (is_solana_caip2 cluster)) _ h₂ in
      let p : Grant → Bool = λ g. is_on x cluster g && has mpp_session g.rails in
      let (g, alone, h₄) = >>=-eq-passed _ (sole (filter p a'.grants)) h₃ in
      let only = sole-eq-passed (filter p a'.grants) g alone in
      let c = compile_mpp_grant-IsCompiled a' g m h₄ in
      let all_limited =
        AreCanonical-IsLimited x a.grants a'.grants
          (validate_authorization-IsAccepted x a a' accepted).grants in
      let limited : IsLimited g =
        (subst (All IsLimited) only (All-filter IsLimited p a'.grants all_limited)).0 in
      let matching : p g ≡ true =
        (subst (All (λ f. p f ≡ true)) only (All-matching p a'.grants)).0 in
      let (asset, parsed, chain, mint) = is_on-true x cluster g (ground arith) in
      rw c.is (record {
        asset = asset;
        parsed = parsed;
        chain = chain;
        mint = mint;
        program = c.canonical.0;
        payer = c.canonical.1;
        canonical = a';
        validated = accepted;
        grant = g;
        only = only;
        recipients = one_recipient g.recipients c.payee;
        rails = one_rail g.rails c.one (ground arith);
        unlimited = (ground (arith, c.count), ground (arith, c.period));
        total = (refl, c.deposit.0);
        each = (refl, limited.pays);
        delta = limited.within;
        price = c.price;
        deposit = (refl, c.deposit.1);
        expiry = (refl, c.bounds);
        begins = begins;
        terms = (refl, refl);
        same = (refl, refl, refl, refl, refl, refl);
        on_cluster = (refl, ground arith);
      })
