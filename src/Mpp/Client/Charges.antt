-- ===== src/Mpp/Client/Charges.antt =====
-- session.ts: what a request over an open channel costs.
use connect_lib.Base.{
  ℕ, ◌+◌, ◌*◌, ◌≡◌, ◌⊎◌, refl, Option, none, some, List, arith, inl, inr, Bool-cases, ap, ◌∙◌, sym,
  or_else, ◌==◌,
}
use connect_lib.Base.Text.{Text}
use connect_lib.Session.Types.{passed, thrown}
use connect_lib.Voucher.Message.{ChannelVoucher}
use connect_lib.Voucher.Types.{StoredKey, Crypto, Result, ManagerConfig}
use connect_lib.Voucher.Manager.{SignedVoucher, sign_change}
use connect_lib.Voucher.Manager.Amount.{sign_change_lem}
use connect_lib.Voucher.Manager.Updates.{Updates, fails, works, sign_voucher-Updates}
use connect_lib.Mpp.Types.{MppSessionPolicy, PaidResponse, Outcome, MppFailure, key_manager}
use connect_lib.Mpp.Client.{
  Active, Client, FetchResult, taken, put_back, after_signing, pay, fetch_keyed, fetch_active,
  check_units,
}
use connect_lib.Mpp.Client.Run.{Request, fetch_at, fetch_checked, perform_fetch}
use connect_lib.Mpp.Client.Sound.{IsKeyed, IsOpen, IsSoundAt, IsSound}

-- The amount that the last voucher states.
abbrev pub stated_amount : Option SignedVoucher → ℕ
stated_amount none = 0
stated_amount (some s) = s.voucher.cumulative_amount

-- A new last voucher adds the price of the reported units, which are reported no longer.
pub record IsCharged (p : MppSessionPolicy) (a : Active) (units : Option ℕ) (c c' : Client)
    : Type 0 where
  pub voucher : SignedVoucher
  pub kept : c'.active ≡ some (record a { last_voucher = some voucher })
  pub amount :
      voucher.voucher.cumulative_amount
      ≡ stated_amount a.last_voucher + or_else units c.pending_units * p.amount
  pub cleared : c'.pending_units ≡ 0

-- What a request leaves: it throws and the client is as it was, or the units are charged.
abbrev pub IsAnswered :
    MppSessionPolicy → Active → Option ℕ → Client → Outcome FetchResult × Client → Type 0
IsAnswered p a units c (r, c') =
    ((c' ≡ c) × ((e : MppFailure) × (r ≡ thrown e))) ⊎ IsCharged p a units c c'

amount_lem :
    (p : MppSessionPolicy) (a : Active) (id : Text) (keys : List StoredKey)
    (h : IsKeyed p a id keys)
    → stated_amount a.last_voucher ≡ h.key.last_cumulative
amount_lem p a id keys h = go a.last_voucher refl
  where
    go : (v : Option SignedVoucher) → a.last_voucher ≡ v → stated_amount v ≡ h.key.last_cumulative
    go none e = sym (h.unsent e)
    go (some s) e = (h.sent s e).0

restored :
    (units : Option ℕ) (pending : ℕ)
    → put_back units (or_else units pending) (taken units (or_else units pending) pending) ≡ pending
restored none pending = omega arith
restored (some n) pending = refl

spent :
    (units : Option ℕ) (pending : ℕ)
    → check_units units pending ≡ passed tt
    → taken units (or_else units pending) pending ≡ 0
unfolding check_units
spent none pending h = omega arith
spent (some n) pending h = ground arith

module _ (x : Crypto) (p : MppSessionPolicy) (units : Option ℕ) (now_ms : ℕ)
    (answer : Option PaidResponse) (a : Active) (c : Client)
    (checked : check_units units c.pending_units ≡ passed tt) (opened : IsOpen p a c.keys) where
  abbrev metered : ℕ
  metered = or_else units c.pending_units

  pay-charges :
      (id : Text)
      → a.key_id ≡ some id
      → IsAnswered p a units c (pay x units now_ms answer metered a id c)
  unfolding pay after_signing
  pay-charges id is = go (sign_voucher-Updates x id a.channel.channel_id metered now_ms c.keys)
    where
      go :
          {u : Result SignedVoucher × List StoredKey}
          → Updates id (sign_change x a.channel.channel_id metered now_ms) c.keys u
          → IsAnswered p a units c (
              after_signing units metered answer a
                (record c { pending_units = taken units metered c.pending_units; keys = u.1 })
                u.0)
      go (fails e eq) = rw eq (
          inl (
            ap (λ (n : ℕ). record c { pending_units = n }) (restored units c.pending_units),
            (key_manager e, refl),
          ))
      go (works k k' s there made eq) =
          let signed = sign_change_lem x a.channel.channel_id metered now_ms k s k' made in
          let h = opened.keyed id is in
          let same : h.key ≡ k = cc h.found in
          let before : stated_amount a.last_voucher ≡ k.last_cumulative =
            amount_lem p a id c.keys h ∙ ap (λ (d : StoredKey). d.last_cumulative) same in
          let price : k.policy.price_per_unit ≡ p.amount =
            ap (λ (d : StoredKey). d.policy.price_per_unit) (sym same) ∙ h.price in
          let sum : signed.amount ≡ k.last_cumulative + metered * k.policy.price_per_unit =
            signed.next.sum in
          rw eq (
            inr (record {
              voucher = s;
              kept = refl;
              amount =
                  ap (λ (v : ChannelVoucher). v.cumulative_amount) signed.voucher
                  ∙ (rw (before, ← price) sum);
              cleared = spent units c.pending_units checked;
            }))

  fetch_keyed-charges :
      (o : Option Text)
      → a.key_id ≡ o
      → IsAnswered p a units c (fetch_keyed x units now_ms answer o a c)
  unfolding fetch_keyed
  fetch_keyed-charges none is = inl (refl, (_, refl))
  fetch_keyed-charges (some id) is = elim (Bool-cases (metered == 0)) [
    | inl empty ↦ rw empty (inl (refl, (_, refl)))
    | inr some_units ↦ rw some_units (pay-charges id is)
  ]

-- A request over the open channel of a sound client, whatever it is answered, either throws and
-- leaves the client as it was, or replaces the last voucher by one for the reported units more at
-- the policy's price, and then no units are reported any longer.
pub perform_fetch-charges :
    (x : Crypto) (config : ManagerConfig) (p : MppSessionPolicy) (signer : Text) (r : Request)
    (a : Active) (c : Client)
    → IsSound p c
    → c.active ≡ some a
    → IsAnswered p a r.units c (perform_fetch x config p signer r c)
unfolding perform_fetch fetch_active
perform_fetch-charges x config p signer r a c sound at =
    go (check_units r.units c.pending_units) refl
  where
    opened : IsOpen p a c.keys
    opened = let (_, o, _) : IsSoundAt p (some a) c.channels c.keys = rw at at sound in o

    chosen :
        (o : Option Active)
        → c.active ≡ o
        → check_units r.units c.pending_units ≡ passed tt
        → IsAnswered p a r.units c (fetch_at x config p signer r c o r.units)
    chosen none e checked = absurd (cc at)
    chosen (some b) e checked =
        let same : b ≡ a = cc at in
        rw same
          (fetch_keyed-charges x p r.units r.now_ms r.response a c checked opened a.key_id refl)

    go :
        (checked : Outcome (Unit {0}))
        → check_units r.units c.pending_units ≡ checked
        → IsAnswered p a r.units c (fetch_checked x config p signer r c checked)
    go (thrown e) is = inl (refl, (e, refl))
    go (passed t) is = chosen c.active refl is
