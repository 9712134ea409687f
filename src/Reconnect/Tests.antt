-- ===== src/Reconnect/Tests.antt =====
-- Two failures, then a success, with three retries allowed.
use connect_lib.Base.{◌≡◌, refl, true, false, none, some, [], ◌∷◌, leb}
use connect_lib.Base.Text.{codes}
use connect_lib.Reconnect.{
  AutoReconnectConfig, reconnecting, reconnected, ReconnectState, set_last_session, Finished,
  finish, new_config, reconnect, needs_reconnect, handle_reconnect_error,
}
use connect_lib.Reconnect.Ends.{IsAnswered, reconnect-ends}

abbrev config : AutoReconnectConfig
config = record { enabled = true; max_retries = 3; retry_delay = 2000 }

defaults : new_config (record { enabled = none; max_retries = none; retry_delay = none }) ≡ config
unfolding new_config
defaults = refl

abbrev idle : ReconnectState
idle = record {
  last_session = none;
  retry_count = 0;
  is_reconnecting = false;
  retry_timeout = none;
}

third :
    finish 4 config (leb 2) 0 (set_last_session (codes "s") idle)
    ≡ some (record {
      answer = true;
      state = record {
        last_session = some (codes "s");
        retry_count = 0;
        is_reconnecting = false;
        retry_timeout = some 4000;
      };
      reports = reconnecting ∷ reconnecting ∷ reconnecting ∷ reconnected ∷ [];
      attempts = 3;
    })
unfolding finish reconnect needs_reconnect handle_reconnect_error set_last_session
third = refl

reconnect-ends_example :
    (f : Finished) × (finish 4 config (leb 2) 0 (set_last_session (codes "s") idle) ≡ some f)
    × IsAnswered (leb 2) 0 3 (codes "s") f
reconnect-ends_example = reconnect-ends config (leb 2) (codes "s") idle refl refl
