-- ===== src/Client/Retry.antt =====
-- media/js/cometd.js: how long a client waits before it tries again, `_increaseBackoff` and what
-- `_connectFailure` does once its listeners are told.
use vurs.Prelude.{
  ℕ, suc, ◌+◌, ◌*◌, ◌≤◌, ◌<◌, true, false, Bool-cases, [], ◌∷◌, ◌≡◌, refl, inl, inr, ltb, arith,
}
use vurs.Value.{get, is_str}
use vurs.Client.State.{Client, Timer, run_connect, connecting}
use vurs.Client.Sending.{is_disconnected, increase_backoff, interval_of}
use vurs.Client.Connection.{delayed_connect, set_status}
use vurs.Client.Responses.{follow_connect_failure, action_of}
use vurs.Client.Sound.{IsSingle, delayed_send-timers}

abbrev pub connect_timer : ℕ → ℕ → Timer
connect_timer id delay = record { id = id; delay = delay; task = run_connect }

module _ {W : Type 0} where
  -- One failure that the server advises to retry.
  pub retried :
      (s : Client W)
      → is_disconnected s.status ≡ false
      → is_str "retry" (action_of s.advice) ≡ true
      → follow_connect_failure s ≡ delayed_connect (increase_backoff s)
  unfolding follow_connect_failure
  retried s live retry = rw (live, retry)

  pub increase_backoff-below :
      (s : Client W)
      → s.backoff < s.max_backoff
      → (increase_backoff s).backoff ≡ s.backoff + s.backoff_increment
  unfolding increase_backoff
  increase_backoff-below s h = ground arith

  delayed_connect-timers :
      (s : Client W)
      → IsSingle s
      → (delayed_connect s).timers
        ≡ record {
          id = s.next_timer;
          delay = s.backoff + interval_of (get "interval" s.advice);
          task = run_connect;
        }
          ∷ []
  unfolding delayed_connect set_status
  delayed_connect-timers s h = delayed_send-timers run_connect (set_status connecting s) h

  -- What stays as it was over failures in a row, and the backoff.
  pub record Waits (n : ℕ) (s t : Client W) : Type 0 where
    pub same_settings : t.settings ≡ s.settings
    pub same_advice : t.advice ≡ s.advice
    pub live : is_disconnected t.status ≡ false
    pub single : IsSingle t
    pub grown :
        n * s.backoff_increment < s.max_backoff + s.backoff_increment
        → t.backoff ≡ n * s.backoff_increment
    pub capped : t.backoff ≤ s.max_backoff + s.backoff_increment

  increase_backoff-IsSingle : (s : Client W) → IsSingle s → IsSingle (increase_backoff s)
  unfolding increase_backoff
  increase_backoff-IsSingle s h = elim (Bool-cases (ltb s.backoff s.max_backoff)) [
    | inl e ↦ rw e h
    | inr e ↦ rw e h
  ]

  pub Waits-next :
      (n : ℕ) (s t : Client W)
      → is_str "retry" (action_of s.advice) ≡ true
      → Waits n s t
      → Waits (suc n) s (delayed_connect (increase_backoff t))
  unfolding delayed_connect increase_backoff
  Waits-next n s t retry w = record {
    same_settings = ground arith;
    same_advice = ground arith;
    live = refl;
    single = inr (
      _,
      delayed_connect-timers (increase_backoff t) (increase_backoff-IsSingle t w.single),
      refl,
    );
    grown = λ h. grind arith;
    capped = ground arith;
  }

  increase_backoff-rest :
      (s : Client W)
      → ((increase_backoff s).next_timer ≡ s.next_timer) × ((increase_backoff s).advice ≡ s.advice)
  unfolding increase_backoff
  increase_backoff-rest s = ground arith

  backoff-delayed_connect : (s : Client W) → (delayed_connect s).backoff ≡ s.backoff
  unfolding delayed_connect
  backoff-delayed_connect s = refl

  pub follow_connect_failure-timers :
      (t : Client W)
      → is_disconnected t.status ≡ false
      → is_str "retry" (action_of t.advice) ≡ true
      → IsSingle t
      → (follow_connect_failure t).timers
        ≡ connect_timer t.next_timer
            ((follow_connect_failure t).backoff + interval_of (get "interval" t.advice))
          ∷ []
  follow_connect_failure-timers t live retry single =
      rw (retried t live retry, backoff-delayed_connect (increase_backoff t))
        (let e = delayed_connect-timers (increase_backoff t) (increase_backoff-IsSingle t single) in
          let (next, advice) = increase_backoff-rest t in rw (e, next, advice))
