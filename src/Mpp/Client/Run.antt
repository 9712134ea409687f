-- ===== src/Mpp/Client/Run.antt =====
-- session.ts: a call of the session client, and the clients that calls can reach.
use connect_lib.Base.{ℕ, ◌≡◌, Bool, Option, none, some}
use connect_lib.Base.Text.{Text}
use connect_lib.Session.Types.{passed, thrown}
use connect_lib.Voucher.Types.{Crypto, ManagerConfig}
use connect_lib.Voucher.Manager.{find_key}
use connect_lib.Mpp.Types.{MppSessionPolicy, PaidResponse, Outcome, failed, invalid_input}
use connect_lib.Mpp.Client.{Active, Client, FetchResult, meter_add, check_units, fetch_active}
use connect_lib.Mpp.Client.Demand.{OpenAnswers}
use connect_lib.Mpp.Client.Open.{fetch_unopened}
use connect_lib.Mpp.Client.Ending.{close, force_close}

-- A request with what it is answered, over an open channel or without one.
pub record Request : Type 0 where
  pub units : Option ℕ
  pub now_ms : ℕ
  pub response : Option PaidResponse
  pub open_answers : OpenAnswers

pub data Call : Type 0 where
  fetch : Request → Call
  add : ℕ → Call
  closes : Option PaidResponse → Call
  closes_by_force : Bool → Option Text → Call

-- The fresh id that a call may draw is that of no stored key, as `crypto.randomUUID` promises.
abbrev pub IsFresh : Call → Client → Type 0
IsFresh (fetch r) c = find_key r.open_answers.id c.keys ≡ none
IsFresh (add units) c = Unit
IsFresh (closes answer) c = Unit
IsFresh (closes_by_force can_send hash) c = Unit

module _ (x : Crypto) (config : ManagerConfig) (p : MppSessionPolicy) (signer : Text) where
  -- `performFetch` after the tests on the units: what comes depends on the open channel.
  unfoldable pub fetch_at :
      Request → Client → Option Active → Option ℕ → Outcome FetchResult × Client
  unfolding fetch_active fetch_unopened
  fetch_at r c (some a) units = fetch_active x units r.now_ms r.response a c
  fetch_at r c none (some _) =
      (failed invalid_input "Request units apply only after the channel is open.", c)
  fetch_at r c none none = fetch_unopened x config p signer r.open_answers c

  unfoldable pub fetch_checked :
      Request → Client → Outcome (Unit {0}) → Outcome FetchResult × Client
  unfolding fetch_at
  fetch_checked r c (thrown e) = (thrown e, c)
  fetch_checked r c (passed _) = fetch_at r c c.active r.units

  -- `performFetch`
  unfoldable pub perform_fetch : Request → Client → Outcome FetchResult × Client
  unfolding fetch_checked check_units
  perform_fetch r c = fetch_checked r c (check_units r.units c.pending_units)

  -- The client after a call.
  unfoldable pub step : Call → Client → Client
  unfolding perform_fetch meter_add close force_close
  step (fetch r) c = (perform_fetch r c).1
  step (add units) c = (meter_add units c).1
  step (closes answer) c = (close answer c).1
  step (closes_by_force can_send hash) c = (force_close can_send hash c).1

  pub data Reaches (from : Client) : Client → Type 0 where
    start : Reaches from from
    after :
        {c c' : Client} (call : Call)
        → Reaches from c
        → IsFresh call c
        → c' ≡ step call c
        → Reaches from c'
