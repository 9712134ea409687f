-- ===== src/Mpp/Client/Offer.antt =====
-- session.ts: the challenges that a client is willing to answer by opening a channel.
use connect_lib.Base.{
  String, ℕ, ◌+◌, ◌/◌, ◌≤◌, ◌≡◌, refl, Bool, true, false, not, ◌||◌, Option, none, some, ltb, ◌==◌,
  arith, Bool-cases, inl, inr, if◌then◌else◌, ap, sym, ◌∙◌,
}
use connect_lib.Base.Text.{Text, text_eq, text_eq_iff}
use connect_lib.Session.Types.{passed, ◌>>=◌, ◌>>◌}
use connect_lib.Session.Passed.{
  >>=-eq-passed, >>-eq-passed, refuse_when-eq-passed, refuse_when-passed,
}
use connect_lib.Mpp.Types.{
  MppErrorCode, SessionRequest, MintAccount, MintDetails, MppSessionPolicy, Outcome, answered,
  present,
}
use connect_lib.Mpp.Mint.{read_mint}
use connect_lib.Mpp.Client.Demand.{
  RpcAnswers, OpenAnswers, Offer, check_offer, minimum_grace, choose, demanded, is_other_program,
}

-- A challenge that may be paid: it is for the policy's token, payee and price, at a trusted
-- program, with a blockhash that the app's RPC knows, for a mint that may be paid with and has the
-- decimals that it states; the deposit is enough, the grace period long enough, and the vouchers
-- outlast it.
pub record IsPayable (p : MppSessionPolicy) (rpc : RpcAnswers) (now : ℕ) (s : SessionRequest)
    : Type 0 where
  pub mint : s.currency ≡ p.mint
  pub payee : s.recipient ≡ p.recipient
  pub price : s.amount ≡ p.amount
  pub deposit : s.minimum_deposit ≤ p.deposit
  pub grace : minimum_grace p ≤ s.grace_period_seconds
  pub expiry : now / 1000 + s.grace_period_seconds ≤ p.expires_at
  pub cluster : rpc.serves_cluster ≡ some tt
  pub program : rpc.trusted_program ≡ some s.channel_program
  pub blockhash : rpc.is_blockhash_valid ≡ some true
  pub account : MintAccount
  pub account_found : rpc.mint ≡ some (some account)
  pub details : MintDetails
  pub readable : read_mint account ≡ some details
  pub decimals : details.decimals ≡ s.decimals
  pub token_program : (t : Text) → s.token_program ≡ some t → t ≡ details.token_program

pub answered-passed : {A : Type 0} (o : Option A) {a : A} → answered o ≡ passed a → o ≡ some a
answered-passed none h = cc
answered-passed (some a) h = cc

pub present-passed :
    {A : Type 0} (o : Option A) (code : MppErrorCode) (m : String) {a : A}
    → present o code m ≡ passed a
    → o ≡ some a
present-passed none code m h = cc
present-passed (some a) code m h = cc

not_eq : (s t : Text) → not (text_eq s t) ≡ false → s ≡ t
not_eq s t h = ground (arith, text_eq_iff s t)

same_program : (o : Option Text) (t s : Text) → is_other_program o t ≡ false → o ≡ some s → s ≡ t
unfolding is_other_program
same_program none t s h e = cc
same_program (some r) t s h e = ground (arith, text_eq_iff r t)

is_valid : (b : Bool) → not b ≡ false → b ≡ true
is_valid true h = refl
is_valid false h = cc

false_or : (a b : Bool) → (a || b) ≡ false → (a ≡ false) × (b ≡ false)
false_or a b h = ground arith

not_equal : (a b : ℕ) → not (a == b) ≡ false → a ≡ b
not_equal a b h = ground arith

not_less : (a b : ℕ) → ltb a b ≡ false → b ≤ a
not_less a b h = ground arith

pub check_offer-IsPayable :
    (p : MppSessionPolicy) (rpc : RpcAnswers) (now : ℕ) (s : SessionRequest)
    → check_offer p rpc now s ≡ passed tt
    → IsPayable p rpc now s
unfolding check_offer
check_offer-IsPayable p rpc now s h =
    let (mint, h₁) = refuse_when-eq-passed _ (not (text_eq s.currency p.mint)) _ h in
    let (cluster, h₂) = >>-eq-passed _ (answered rpc.serves_cluster) h₁ in
    let (program, trusted, h₃) = >>=-eq-passed _ (answered rpc.trusted_program) h₂ in
    let (pinned, h₄) = refuse_when-eq-passed _ (not (text_eq s.channel_program program)) _ h₃ in
    let (valid, known, h₅) = >>=-eq-passed _ (answered rpc.is_blockhash_valid) h₄ in
    let (fresh, h₆) = refuse_when-eq-passed _ (not valid) _ h₅ in
    let (found, asked, h₇) = >>=-eq-passed _ (answered rpc.mint) h₆ in
    let (account, there, h₈) = >>=-eq-passed _ (present found _ _) h₇ in
    let (details, readable, h₉) = >>=-eq-passed _ (answered (read_mint account)) h₈ in
    let (matching, h₁₀) =
      refuse_when-eq-passed _
        (not (details.decimals == s.decimals)
          || is_other_program s.token_program details.token_program)
        _ h₉ in
    let (terms, h₁₁) =
      refuse_when-eq-passed _
        (not (text_eq s.recipient p.recipient)
          || not (s.amount == p.amount)
          || ltb s.grace_period_seconds (minimum_grace p)
          || ltb p.deposit s.minimum_deposit)
        _ h₁₀ in
    let (d₁, d₂) = false_or _ _ matching in
    let (f₁, t₄) = false_or _ _ terms in
    let (f₂, t₃) = false_or _ _ f₁ in
    let (t₁, t₂) = false_or _ _ f₂ in
    let late = refuse_when-passed (ltb p.expires_at (now / 1000 + s.grace_period_seconds)) _ h₁₁ in
    record {
      mint = not_eq s.currency p.mint mint;
      payee = not_eq s.recipient p.recipient t₁;
      price = not_equal s.amount p.amount t₂;
      deposit = not_less p.deposit s.minimum_deposit t₄;
      grace = not_less s.grace_period_seconds (minimum_grace p) t₃;
      expiry = not_less p.expires_at (now / 1000 + s.grace_period_seconds) late;
      cluster = answered-passed rpc.serves_cluster cluster;
      program =
          answered-passed rpc.trusted_program trusted
          ∙ ap some (sym (not_eq s.channel_program program pinned));
      blockhash = answered-passed rpc.is_blockhash_valid known ∙ ap some (is_valid valid fresh);
      account = account;
      account_found = answered-passed rpc.mint asked ∙ ap some (present-passed found _ _ there);
      details = details;
      readable = answered-passed (read_mint account) readable;
      decimals = not_equal details.decimals s.decimals d₁;
      token_program = λ t e. same_program s.token_program details.token_program t d₂ e;
    }

abbrev some_request : SessionRequest → Outcome (Option SessionRequest)
some_request s = passed (some s)

-- What is demanded is payable.
pub demanded-IsPayable :
    (p : MppSessionPolicy) (o : OpenAnswers) (s : SessionRequest)
    → demanded p o ≡ passed (some s)
    → IsPayable p o.rpc o.checked_ms s
unfolding demanded
demanded-IsPayable p o s h =
    let (offer, _, h₁) = >>=-eq-passed _ (answered o.offer) h in paid offer h₁
  where
    paid :
        (offer : Offer)
        → (if offer.status == 402
            then (choose o.read_ms offer >>= λ (t : SessionRequest).
                check_offer p o.rpc o.checked_ms t >> some_request t)
            else passed none)
          ≡ passed (some s)
        → IsPayable p o.rpc o.checked_ms s
    paid offer e = elim (Bool-cases (offer.status == 402)) [
      | inr free ↦ absurd (cc (rw free at e))
      | inl asked ↦
          let (t, _, e₁) = >>=-eq-passed _ (choose o.read_ms offer) (rw asked at e) in
          let (ok, e₂) = >>-eq-passed _ (check_offer p o.rpc o.checked_ms t) e₁ in
          let same : t ≡ s = cc e₂ in rw same at (check_offer-IsPayable p o.rpc o.checked_ms t ok)
    ]
