-- ===== src/Mpp/Client/Reached.antt =====
-- session.ts: what holds of every client that calls can reach.
use connect_lib.Base.{
  ℕ, ◌≡◌, refl, Bool, true, false, Option, none, some, List, inl, inr, Bool-cases, ltb, ◌==◌, ◌||◌,
  ◌+◌,
}
use connect_lib.Base.Text.{Text}
use connect_lib.Session.Types.{passed, thrown}
use connect_lib.Voucher.Message.{u64_max}
use connect_lib.Voucher.Types.{StoredKey, Crypto, ManagerConfig}
use connect_lib.Voucher.Manager.{SignedVoucher}
use connect_lib.Voucher.Manager.Updates.{OnlyLive, OnlyLive-revoke}
use connect_lib.Mpp.Types.{MppSessionPolicy, MppSessionSettlementBinding, PaidResponse, Outcome}
use connect_lib.Mpp.Client.{
  Active, Client, FetchResult, new_client, meter_add, check_units, paid_request,
}
use connect_lib.Mpp.Client.Ending.{
  revoke_and_end, closable, end_paid, close_chosen, close, end_forced, force_chosen, force_close,
}
use connect_lib.Mpp.Client.Run.{
  Request, Call, fetch, add, closes, closes_by_force, IsFresh, fetch_at, fetch_checked, step,
  Reaches, start, after,
}
use connect_lib.Mpp.Client.Sound.{IsSoundAt, IsSound, fetch_active-IsSound}
use connect_lib.Mpp.Client.Sound.Opening.{fetch_unopened-IsSound}
use connect_lib.Mpp.Client.Sound.Closing.{
  without_listed, revoke_and_end-ok, closable-passed, IsSettled,
}
use connect_lib.Mpp.Client.Sound.Settled.{close-IsSettled, force_close-IsSettled}

module _ (p : MppSessionPolicy) (c : Client) (sound : IsSound p c) where
  at_active : (o : Option Active) → c.active ≡ o → IsSoundAt p o c.channels c.keys
  at_active o is = rw is at sound

  -- A client that only lost its channel and its key.
  revoked_away :
      {A : Type 0} (a : Active) (id : Text) (result : A)
      → c.active ≡ some a
      → a.key_id ≡ some id
      → IsSound p (revoke_and_end id a.channel result c).1
  revoked_away a id result at is =
      let (listed, open_terms, only) = at_active (some a) at in
      rw (revoke_and_end-ok p a c at listed open_terms only id result is)
        (without_listed a.channel c.channels listed, OnlyLive-revoke id c.keys (rw is at only))

  close-IsSound : (answer : Option PaidResponse) → IsSound p (close answer c).1
  unfolding close
  close-IsSound answer = go (closable c.active) refl
    where
      paid :
          (r : Outcome FetchResult) (a : Active) (id : Text) (final : SignedVoucher)
          → c.active ≡ some a
          → a.key_id ≡ some id
          → IsSound p (end_paid a id final c r).1
      paid (thrown e) a id final at is = sound
      paid (passed r) a id final at is = revoked_away a id _ at is

      go :
          (r : Outcome (Active × Text × SignedVoucher))
          → closable c.active ≡ r
          → IsSound p (close_chosen answer c r).1
      go (thrown e) chosen = sound
      go (passed (a, id, final)) chosen =
          let (at, is, _) = closable-passed c.active a id final chosen in
          paid (paid_request answer a.channel) a id final at is

  end_forced-IsSound :
      (a : Active) (o : Option Text) (result : Text × MppSessionSettlementBinding)
      → c.active ≡ some a
      → a.key_id ≡ o
      → IsSound p (end_forced o a.channel result c).1
  unfolding end_forced
  end_forced-IsSound a none result at is =
      let (listed, open_terms, only) = at_active (some a) at in
      (without_listed a.channel c.channels listed, rw is at only)
  end_forced-IsSound a (some id) result at is = revoked_away a id result at is

  force_close-IsSound :
      (can_send : Bool) (hash : Option Text) → IsSound p (force_close can_send hash c).1
  unfolding force_close
  force_close-IsSound can_send hash = go can_send hash c.active refl
    where
      go :
          (can_send : Bool) (hash : Option Text) (o : Option Active)
          → c.active ≡ o
          → IsSound p (force_chosen can_send hash c o).1
      go can_send hash none at = sound
      go false hash (some a) at = sound
      go true none (some a) at = sound
      go true (some h) (some a) at = end_forced-IsSound a a.key_id _ at refl

  meter_add-IsSound : (units : ℕ) → IsSound p (meter_add units c).1
  unfolding meter_add
  meter_add-IsSound units =
      elim (Bool-cases (units == 0 || ltb u64_max (c.pending_units + units))) [
        | inl refused ↦ rw refused sound
        | inr taken ↦ rw taken sound
      ]

  module _ (x : Crypto) (config : ManagerConfig) (signer : Text) where
    fetch_at-IsSound :
        (r : Request)
        → IsFresh (fetch r) c
        → (o : Option Active) (units : Option ℕ) → c.active ≡ o
        → IsSound p (fetch_at x config p signer r c o units).1
    unfolding fetch_at
    fetch_at-IsSound r fresh (some a) units at =
        let (listed, open_terms, only) = at_active (some a) at in
        fetch_active-IsSound x p units r.now_ms r.response a c at listed open_terms only
    fetch_at-IsSound r fresh none (some n) at = sound
    fetch_at-IsSound r fresh none none at =
        let (idle, only) = at_active none at in
        fetch_unopened-IsSound x config p signer r.open_answers c at idle only fresh

    fetch_checked-IsSound :
        (r : Request)
        → IsFresh (fetch r) c
        → (checked : Outcome (Unit {0})) → IsSound p (fetch_checked x config p signer r c checked).1
    unfolding fetch_checked
    fetch_checked-IsSound r fresh (thrown e) = sound
    fetch_checked-IsSound r fresh (passed t) = fetch_at-IsSound r fresh c.active r.units refl

    step-IsSound : (call : Call) → IsFresh call c → IsSound p (step x config p signer call c)
    unfolding step
    step-IsSound (fetch r) fresh =
        fetch_checked-IsSound r fresh (check_units r.units c.pending_units)
    step-IsSound (add units) fresh = meter_add-IsSound units
    step-IsSound (closes answer) fresh = close-IsSound answer
    step-IsSound (closes_by_force can_send hash) fresh = force_close-IsSound can_send hash

-- The two ways in which a channel ends, with the settlement that is returned.
pub data Ends (c : Client) (b : MppSessionSettlementBinding) (c' : Client) : Type 0 where
  by_close :
      (answer : Option PaidResponse) (result : FetchResult)
      → close answer c ≡ (passed (result, b), c')
      → Ends c b c'
  by_force :
      (can_send : Bool) (hash : Option Text) (result : Text)
      → force_close can_send hash c ≡ (passed (result, b), c')
      → Ends c b c'

module _ (x : Crypto) (config : ManagerConfig) (p : MppSessionPolicy) (signer : Text)
    (keys : List StoredKey) (idle : OnlyLive none keys) where
  -- Whatever a client is asked and answered, in any order, from a store without active keys: at most
  -- one channel is open, it is on the policy's terms, no other key is active, its key is bound to
  -- it and has signed for exactly what the last voucher states, within the policy's limit and the
  -- deposit.
  pub Reaches-IsSound : {c : Client} → Reaches x config p signer (new_client keys) c → IsSound p c
  Reaches-IsSound start = (refl, idle)
  Reaches-IsSound (after {c} call r fresh eq) =
      rw eq (step-IsSound p c (Reaches-IsSound r) x config signer call fresh)

  -- However the channel of a client that calls can reach ends, by a close or by force: it settles for
  -- exactly what the channel's key has signed for, within the policy's limit and the deposit, or for
  -- nothing if the open was never acknowledged; and no channel and no active key is left.
  pub Ends-IsSettled :
      {c c' : Client} {b : MppSessionSettlementBinding}
      → Reaches x config p signer (new_client keys) c
      → Ends c b c'
      → IsSettled p c b c'
  Ends-IsSettled {c} {c'} {b} r (by_close answer result h) =
      close-IsSettled p c (Reaches-IsSound r) answer result b c' h
  Ends-IsSettled {c} {c'} {b} r (by_force can_send hash result h) =
      force_close-IsSettled p c (Reaches-IsSound r) can_send hash result b c' h
