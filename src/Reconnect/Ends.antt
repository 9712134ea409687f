-- ===== src/Reconnect/Ends.antt =====
-- auto-reconnect.ts: a call of `reconnect` ends.
use connect_lib.Base.{
  ℕ, zero, suc, ◌+◌, ◌≤◌, ◌<◌, ◌≡◌, ◌⊎◌, refl, ap, ◌∙◌, min, ◌*◌, inl, inr, Bool, true, false, none,
  some, List, [], ◌∷◌, ◌++◌, arith, leb, Bool-cases, replicate,
}
use connect_lib.Base.Text.{Text}
use connect_lib.Reconnect.{
  AutoReconnectConfig, Report, reconnecting, reconnected, failed, ReconnectState, set_last_session,
  needs_reconnect, clear_session, cancel, Outcome, Attempt, handle_reconnect_error, reconnect,
  Finished, then_reports, resume, finish,
}

-- An attempt of the first `n` from `k` on succeeds, as the first one, or none does.
abbrev pub Fails : (ℕ → Bool) → ℕ → ℕ → Type 0
Fails success k n = (i : ℕ) → i < n → success (k + i) ≡ false

-- How a call ends that starts at attempt `k` with `left` retries left.
pub record IsAnswered (success : ℕ → Bool) (k left : ℕ) (session : Text) (f : Finished)
    : Type 0 where
  pub retries : ℕ
  pub bounded : retries ≤ left
  pub before : Fails success k retries
  pub attempts : f.attempts ≡ suc (k + retries)
  pub ends :
      ((success (k + retries) ≡ true)
        × (f.answer ≡ true)
        × (f.state.last_session ≡ some session)
        × (f.state.retry_count ≡ 0)
        × (f.reports ≡ replicate (suc retries) reconnecting ++ reconnected ∷ []))
      ⊎ ((success (k + retries) ≡ false)
          × (retries ≡ left)
          × (f.answer ≡ false)
          × (f.state.last_session ≡ none)
          × (f.reports ≡ replicate (suc retries) reconnecting ++ failed ∷ []))

-- A state that may reconnect to a session.
pub record MayReconnect (c : AutoReconnectConfig) (session : Text) (s : ReconnectState)
    : Type 0 where
  pub enabled : c.enabled ≡ true
  pub session_is : s.last_session ≡ some session
  pub idle : s.is_reconnecting ≡ false

may_lem :
    (c : AutoReconnectConfig) (session : Text) (s : ReconnectState)
    → MayReconnect c session s
    → needs_reconnect c s ≡ true
unfolding needs_reconnect
may_lem c session s v = ground (arith, v.enabled, v.session_is)

reconnect-success :
    (c : AutoReconnectConfig) (session : Text) (s : ReconnectState)
    → MayReconnect c session s
    → reconnect c true s ≡ record {
      outcome = Outcome.answers true;
      state = record s { is_reconnecting = false; retry_count = 0 };
      reports = reconnecting ∷ reconnected ∷ [];
    }
unfolding reconnect
reconnect-success c session s v = rw (may_lem c session s v, v.idle) refl

reconnect-failure :
    (c : AutoReconnectConfig) (session : Text) (s : ReconnectState)
    → MayReconnect c session s
    → reconnect c false s ≡ handle_reconnect_error c (record s { is_reconnecting = false })
unfolding reconnect
reconnect-failure c session s v = rw (may_lem c session s v, v.idle) refl

finish-answers :
    (fuel : ℕ) (c : AutoReconnectConfig) (success : ℕ → Bool) (n : ℕ) (s t : ReconnectState)
    (b : Bool) (reports : List Report)
    → reconnect c (success n) s
      ≡ record { outcome = Outcome.answers b; state = t; reports = reports }
    → finish (suc fuel) c success n s
      ≡ some (record { answer = b; state = t; reports = reports; attempts = suc n })
unfolding finish
finish-answers fuel c success n s t b reports h =
    ap (λ (a : Attempt). resume n a (finish fuel c success (suc n) a.state)) h

finish-waits :
    (fuel : ℕ) (c : AutoReconnectConfig) (success : ℕ → Bool) (n : ℕ) (s t : ReconnectState)
    (delay : ℕ) (reports : List Report)
    → reconnect c (success n) s
      ≡ record { outcome = Outcome.waits delay; state = t; reports = reports }
    → finish (suc fuel) c success n s ≡ then_reports reports (finish fuel c success (suc n) t)
unfolding finish
finish-waits fuel c success n s t delay reports h =
    ap (λ (a : Attempt). resume n a (finish fuel c success (suc n) a.state)) h

-- The failure that ends a call, and the one that sets a timer.
gives_up :
    (c : AutoReconnectConfig) (session : Text) (s : ReconnectState)
    → MayReconnect c session s
    → c.max_retries ≤ s.retry_count
    → reconnect c false s ≡ record {
      outcome = Outcome.answers false;
      state = clear_session (record s { is_reconnecting = false });
      reports = reconnecting ∷ failed ∷ [];
    }
unfolding handle_reconnect_error
gives_up c session s v h =
    let over : leb c.max_retries s.retry_count ≡ true = ground arith in
    reconnect-failure c session s v ∙ rw over refl

tries_again :
    (c : AutoReconnectConfig) (session : Text) (s : ReconnectState)
    → MayReconnect c session s
    → s.retry_count < c.max_retries
    → (delay : ℕ) × (reconnect c false s ≡ record {
      outcome = Outcome.waits delay;
      state = record s {
        is_reconnecting = false;
        retry_count = suc s.retry_count;
        retry_timeout = some delay;
      };
      reports = reconnecting ∷ [];
    })
unfolding handle_reconnect_error
tries_again c session s v h =
    let under : leb c.max_retries s.retry_count ≡ false = ground arith in
    (
      min (c.retry_delay * suc s.retry_count) 2147483647,
      reconnect-failure c session s v ∙ rw under refl,
    )

-- A later answer is an answer of the call, after one more failure.
later_lem :
    (success : ℕ → Bool) (n left : ℕ) (session : Text) (f : Finished)
    → success n ≡ false
    → IsAnswered success (suc n) left session f
    → IsAnswered success n (suc left) session (record f { reports = reconnecting ∷ f.reports })
later_lem success n left session f h v =
    let shift : suc n + v.retries ≡ n + suc v.retries = omega arith in
    record {
      retries = suc v.retries;
      bounded = omega (arith, v.bounded);
      before = λ i small. earlier i small;
      attempts = omega (arith, v.attempts);
      ends = elim v.ends [
        | inl (won, answer, kept, zeroed, reports) ↦
            inl (rw shift at won, answer, kept, zeroed, ap (λ l. reconnecting ∷ l) reports)
        | inr (lost, all_left, answer, gone, reports) ↦
            inr
              (rw shift at lost, ap suc all_left, answer, gone, ap (λ l. reconnecting ∷ l) reports)
      ];
    }
  where
    earlier : (i : ℕ) → i < suc v.retries → success (n + i) ≡ false
    earlier zero small = let at : n + 0 ≡ n = omega arith in rw at h
    earlier (suc i) small =
        let at : suc n + i ≡ n + suc i = omega arith in rw at at (v.before i (omega (arith, small)))

module _ (c : AutoReconnectConfig) (success : ℕ → Bool) (session : Text) where
  won_lem :
      (left fuel n : ℕ) (s : ReconnectState)
      → MayReconnect c session s
      → success n ≡ true
      → (f : Finished) × (finish (suc fuel) c success n s ≡ some f)
        × IsAnswered success n left session f
  won_lem left fuel n s v won =
      let at : n + 0 ≡ n = omega arith in
      let step : reconnect c (success n) s ≡ record {
        outcome = Outcome.answers true;
        state = record s { is_reconnecting = false; retry_count = 0 };
        reports = reconnecting ∷ reconnected ∷ [];
      } =
        rw won (reconnect-success c session s v) in
      (
        record {
          answer = true;
          state = record s { is_reconnecting = false; retry_count = 0 };
          reports = reconnecting ∷ reconnected ∷ [];
          attempts = suc n;
        },
        finish-answers fuel c success n s _ true _ step,
        record {
          retries = 0;
          bounded = omega arith;
          before = λ i small. absurd (omega (arith, small));
          attempts = omega arith;
          ends = inl (rw at won, refl, v.session_is, refl, refl);
        },
      )

  given_up_lem :
      (fuel n : ℕ) (s : ReconnectState)
      → MayReconnect c session s
      → c.max_retries ≤ s.retry_count
      → success n ≡ false
      → (f : Finished) × (finish (suc fuel) c success n s ≡ some f)
        × IsAnswered success n 0 session f
  unfolding clear_session cancel
  given_up_lem fuel n s v h lost =
      let at : n + 0 ≡ n = omega arith in
      (
        record {
          answer = false;
          state = clear_session (record s { is_reconnecting = false });
          reports = reconnecting ∷ failed ∷ [];
          attempts = suc n;
        },
        finish-answers fuel c success n s _ false _ (rw lost (gives_up c session s v h)),
        record {
          retries = 0;
          bounded = omega arith;
          before = λ i small. absurd (omega (arith, small));
          attempts = omega arith;
          ends = inr (rw at lost, refl, refl, refl, refl);
        },
      )

  finish_lem :
      (left fuel n : ℕ) (s : ReconnectState)
      → MayReconnect c session s
      → s.retry_count + left ≡ c.max_retries
      → left < fuel
      → (f : Finished) × (finish fuel c success n s ≡ some f) × IsAnswered success n left session f
  finish_lem left zero n s v h enough = absurd (omega (arith, enough))
  finish_lem zero (suc fuel) n s v h enough = elim (Bool-cases (success n)) [
    | inl won ↦ won_lem 0 fuel n s v won
    | inr lost ↦ given_up_lem fuel n s v (omega (arith, h)) lost
  ]
  finish_lem (suc left) (suc fuel) n s v h enough = elim (Bool-cases (success n)) [
    | inl won ↦ won_lem (suc left) fuel n s v won
    | inr lost ↦
        let (delay, step) = tries_again c session s v (omega (arith, h)) in
        let t : ReconnectState = record s {
          is_reconnecting = false;
          retry_count = suc s.retry_count;
          retry_timeout = some delay;
        } in
        let again : MayReconnect c session t = record {
          enabled = v.enabled;
          session_is = v.session_is;
          idle = refl;
        } in
        let (f, is, answered) =
          finish_lem left fuel (suc n) t again (omega (arith, h)) (omega (arith, enough)) in
        let waits = finish-waits fuel c success n s t delay (reconnecting ∷ []) (rw lost step) in
        (
          record f { reports = reconnecting ∷ f.reports },
          waits ∙ ap (then_reports (reconnecting ∷ [])) is,
          later_lem success n left session f lost answered,
        )
  ]

  -- A call of `reconnect` for a session that was set last ends, whatever the attempts come to: after
  -- at most the configured number of retries it answers that the first attempt that succeeds has
  -- reconnected the session, or, where they all fail, it answers false, reports the failure once and
  -- forgets the session. So much fuel is enough.
  pub reconnect-ends :
      (s : ReconnectState)
      → c.enabled ≡ true
      → s.is_reconnecting ≡ false
      → (f : Finished) × (finish (suc c.max_retries) c success 0 (set_last_session session s)
          ≡ some f)
        × IsAnswered success 0 c.max_retries session f
  unfolding set_last_session
  reconnect-ends s enabled idle =
      finish_lem c.max_retries (suc c.max_retries) 0 (set_last_session session s)
        (record { enabled = enabled; session_is = refl; idle = idle }) (omega arith) (omega arith)
