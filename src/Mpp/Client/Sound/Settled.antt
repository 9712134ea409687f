-- ===== src/Mpp/Client/Sound/Settled.antt =====
-- session.ts: `close` and `forceClose` settle for what the channel's key has signed for.
use connect_lib.Base.{
  ◌≡◌, refl, Bool, true, false, Option, none, some, List, [], ◌∷◌, arith, ap, ◌∙◌, sym, subst,
}
use connect_lib.Base.Text.{Text}
use connect_lib.Session.Types.{passed, thrown}
use connect_lib.Voucher.Types.{StoredKey}
use connect_lib.Voucher.Manager.{SignedVoucher}
use connect_lib.Voucher.Manager.Updates.{OnlyLive}
use connect_lib.Mpp.Types.{MppSessionPolicy, MppSessionSettlementBinding, PaidResponse, Outcome}
use connect_lib.Mpp.Client.{Active, Client, FetchResult, paid_request}
use connect_lib.Mpp.Client.Ending.{
  settlement_binding, ended, closable, end_paid, close_chosen, close, end_forced, force_active,
  force_chosen, force_close,
}
use connect_lib.Mpp.Client.Sound.{IsOpen, IsSoundAt, IsSound}
use connect_lib.Mpp.Client.Sound.Closing.{
  IsSettled, settled, stranded_settled, revoke_and_end-ok, closable-passed,
}

-- what closing gives, and the client after it
abbrev Closed : Type 0 → Type 0
Closed A = Outcome (A × MppSessionSettlementBinding) × Client

passed-eq :
    {A : Type 0} {r s : A} {c d : Client}
    → ◌≡◌ {A = Outcome A × Client} (passed r, c) (passed s, d)
    → r ≡ s
passed-eq h = ground (arith, h)

module _ (p : MppSessionPolicy) (c : Client) (sound : IsSound p c) where
  close_chosen-IsSettled :
      (answer : Option PaidResponse) (r : Outcome (Active × Text × SignedVoucher))
      (result : FetchResult) (b : MppSessionSettlementBinding) (c' : Client)
      → closable c.active ≡ r
      → close_chosen answer c r ≡ (passed (result, b), c')
      → IsSettled p c b c'
  unfolding close_chosen
  close_chosen-IsSettled answer (thrown e) result b c' is h =
      absurd (cc (ap (λ (q : Closed FetchResult). q.0) h))
  close_chosen-IsSettled answer (passed (a, id, final)) result b c' is h =
      let (at, known, sent) = closable-passed c.active a id final is in
      let (listed, open_terms, only) : IsSoundAt p (some a) c.channels c.keys = rw at at sound in
      paid (paid_request answer a.channel) at known sent listed open_terms only h
    where
      paid :
          (r : Outcome FetchResult)
          → c.active ≡ some a
          → a.key_id ≡ some id
          → a.last_voucher ≡ some final
          → c.channels ≡ a.channel ∷ []
          → IsOpen p a c.keys
          → OnlyLive a.key_id c.keys
          → end_paid a id final c r ≡ (passed (result, b), c')
          → IsSettled p c b c'
      paid (thrown e) at known sent listed open_terms only h =
          absurd (cc (ap (λ (q : Closed FetchResult). q.0) h))
      paid (passed r) at known sent listed open_terms only h =
          let both =
            sym (
              revoke_and_end-ok p a c at listed open_terms only id
                (r, settlement_binding a.channel (some final) false) known)
            ∙ h in
          let binding : settlement_binding a.channel a.last_voucher false ≡ b =
            ap (λ (v : Option SignedVoucher). settlement_binding a.channel v false) sent
            ∙ ap (λ (r : FetchResult × MppSessionSettlementBinding). r.1) (passed-eq both) in
          subst (λ (q : MppSessionSettlementBinding). IsSettled p c q c') binding
            (subst
              (λ (q : Client). IsSettled p c (settlement_binding a.channel a.last_voucher false) q)
              (ap (λ (q : Closed FetchResult). q.1) both)
              (settled p a c at listed open_terms only false id known))

  pub close-IsSettled :
      (answer : Option PaidResponse) (result : FetchResult) (b : MppSessionSettlementBinding)
      (c' : Client)
      → close answer c ≡ (passed (result, b), c')
      → IsSettled p c b c'
  unfolding close
  close-IsSettled answer result b c' h =
      close_chosen-IsSettled answer (closable c.active) result b c' refl h

  force_active-IsSettled :
      (can_send : Bool) (hash : Option Text) (a : Active) (result : Text)
      (b : MppSessionSettlementBinding) (c' : Client)
      → c.active ≡ some a
      → force_active can_send hash a c ≡ (passed (result, b), c')
      → IsSettled p c b c'
  unfolding force_active
  force_active-IsSettled false hash a result b c' at h =
      absurd (cc (ap (λ (q : Closed Text). q.0) h))
  force_active-IsSettled true none a result b c' at h =
      absurd (cc (ap (λ (q : Closed Text). q.0) h))
  force_active-IsSettled true (some hash) a result b c' at h =
      let (listed, open_terms, only) : IsSoundAt p (some a) c.channels c.keys = rw at at sound in
      forced a.key_id refl listed open_terms only h
    where
      result_of : MppSessionSettlementBinding
      result_of = settlement_binding a.channel a.last_voucher true

      same :
          {keys : List StoredKey}
          → IsSettled p c result_of (ended a.channel keys c)
          → ◌≡◌ {A = Closed Text}
              (passed (hash, result_of), ended a.channel keys c)
              (passed (result, b), c')
          → IsSettled p c b c'
      same done both =
          subst (λ (q : MppSessionSettlementBinding). IsSettled p c q c')
            (ap (λ (r : Text × MppSessionSettlementBinding). r.1) (passed-eq both))
            (subst (λ (q : Client). IsSettled p c result_of q) (ap (λ (q : Closed Text). q.1) both)
              done)

      forced :
          (o : Option Text)
          → a.key_id ≡ o
          → c.channels ≡ a.channel ∷ []
          → IsOpen p a c.keys
          → OnlyLive a.key_id c.keys
          → end_forced o a.channel (hash, result_of) c ≡ (passed (result, b), c')
          → IsSettled p c b c'
      forced none is listed open_terms only e =
          same (stranded_settled p a c at listed open_terms only is) e
      forced (some id) is listed open_terms only e =
          same (settled p a c at listed open_terms only true id is)
            (sym (revoke_and_end-ok p a c at listed open_terms only id (hash, result_of) is) ∙ e)

  pub force_close-IsSettled :
      (can_send : Bool) (hash : Option Text) (result : Text) (b : MppSessionSettlementBinding)
      (c' : Client)
      → force_close can_send hash c ≡ (passed (result, b), c')
      → IsSettled p c b c'
  unfolding force_close
  force_close-IsSettled can_send hash result b c' h = go c.active refl h
    where
      go :
          (o : Option Active)
          → c.active ≡ o
          → force_chosen can_send hash c o ≡ (passed (result, b), c')
          → IsSettled p c b c'
      go none at e = absurd (cc (ap (λ (q : Closed Text). q.0) e))
      go (some a) at e = force_active-IsSettled can_send hash a result b c' at e
