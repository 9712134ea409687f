-- ===== src/Reconnect.antt =====
-- core/src/auto-reconnect.ts: `AutoReconnectManager`.
--
-- What `reconnectFn` comes to is an argument, `false` where it throws; a report to a callback is a
-- value. The timer is its delay, while it is set.
pub mod Ends
mod Tests
use connect_lib.Base.{
  ℕ, zero, suc, ◌+◌, ◌*◌, min, Bool, true, false, not, ◌&&◌, ◌||◌, Option, none, some, List, [],
  ◌∷◌, ◌++◌, leb, if◌then◌else◌, is_some, or_else,
}
use connect_lib.Base.Text.{Text}

pub record AutoReconnectConfig : Type 0 where
  pub enabled : Bool
  pub max_retries : ℕ
  pub retry_delay : ℕ

-- The configuration of the constructor and of `updateConfig`.
pub record PartialConfig : Type 0 where
  pub enabled : Option Bool
  pub max_retries : Option ℕ
  pub retry_delay : Option ℕ

pub data Report : Type 0 where
  reconnecting reconnected failed : Report

-- A session is its text here: it is only kept, and given back to `reconnectFn`.
pub record ReconnectState : Type 0 where
  pub last_session : Option Text
  pub retry_count : ℕ
  pub is_reconnecting : Bool
  pub retry_timeout : Option ℕ

unfoldable pub new_config : PartialConfig → AutoReconnectConfig
new_config c = record {
  enabled = or_else c.enabled true;
  max_retries = or_else c.max_retries 3;
  retry_delay = or_else c.retry_delay 2000;
}

-- `updateConfig`
unfoldable pub update_config : PartialConfig → AutoReconnectConfig → AutoReconnectConfig
update_config c old = record {
  enabled = or_else c.enabled old.enabled;
  max_retries = or_else c.max_retries old.max_retries;
  retry_delay = or_else c.retry_delay old.retry_delay;
}

-- `setLastSession`
unfoldable pub set_last_session : Text → ReconnectState → ReconnectState
set_last_session session s = record s { last_session = some session; retry_count = 0 }

-- `needsReconnect`
unfoldable pub needs_reconnect : AutoReconnectConfig → ReconnectState → Bool
needs_reconnect c s = c.enabled && is_some s.last_session

-- `cancel`
unfoldable pub cancel : ReconnectState → ReconnectState
cancel s = record s { is_reconnecting = false; retry_timeout = none }

-- `clearSession`
unfoldable pub clear_session : ReconnectState → ReconnectState
unfolding cancel
clear_session s =
    cancel (record s { last_session = none; retry_count = 0; is_reconnecting = false })

-- What a call of `reconnect` comes to: an answer, or a timer that calls it again.
pub data Outcome : Type 0 where
  answers : Bool → Outcome
  waits : ℕ → Outcome

pub record Attempt : Type 0 where
  pub outcome : Outcome
  pub state : ReconnectState
  pub reports : List Report

-- `handleReconnectError`
unfoldable pub handle_reconnect_error : AutoReconnectConfig → ReconnectState → Attempt
unfolding clear_session
handle_reconnect_error c s =
    if leb c.max_retries s.retry_count
    then record {
      outcome = answers false;
      state = clear_session s;
      reports = reconnecting ∷ failed ∷ [];
    }
    else (let delay : ℕ = min (c.retry_delay * suc s.retry_count) 2147483647 in
        record {
          outcome = waits delay;
          state = record s { retry_count = suc s.retry_count; retry_timeout = some delay };
          reports = reconnecting ∷ [];
        })

-- `reconnect`, up to its answer or the timer that it sets
unfoldable pub reconnect : AutoReconnectConfig → Bool → ReconnectState → Attempt
reconnect c success s =
    if not (needs_reconnect c s) || s.is_reconnecting
    then record { outcome = answers false; state = s; reports = [] }
    else if success
    then record {
      outcome = answers true;
      state = record s { is_reconnecting = false; retry_count = 0 };
      reports = reconnecting ∷ reconnected ∷ [];
    }
    else handle_reconnect_error c (record s { is_reconnecting = false })

-- A call with the calls that its timers make; `success n` is what the `n`-th attempt comes to.
pub record Finished : Type 0 where
  pub answer : Bool
  pub state : ReconnectState
  pub reports : List Report
  pub attempts : ℕ

abbrev pub then_reports : List Report → Option Finished → Option Finished
then_reports before none = none
then_reports before (some f) = some (record f { reports = before ++ f.reports })

-- The answer of an attempt, or what comes of the call that its timer makes.
abbrev pub resume : ℕ → Attempt → Option Finished → Option Finished
resume n a later = elim a.outcome [
  | answers b ↦ some (record { answer = b; state = a.state; reports = a.reports; attempts = suc n })
  | waits delay ↦ then_reports a.reports later
]

unfoldable pub finish : ℕ → AutoReconnectConfig → (ℕ → Bool) → ℕ → ReconnectState → Option Finished
finish zero c success n s = none
finish (suc fuel) c success n s =
    let a : Attempt = reconnect c (success n) s in
    resume n a (finish fuel c success (suc n) a.state)
