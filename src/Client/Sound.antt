-- ===== src/Client/Sound.antt =====
-- media/js/cometd.js: what holds of a client between two events: at most one connect or handshake
-- waits for its timeout, and the listeners and the transports are well formed.
pub mod Reachable
use vurs.Prelude.{
  ℕ, suc, ◌+◌, String, Bool, true, false, Option, none, some, List, [], ◌∷◌, ◌≡◌, refl, sym, ap,
  ◌∙◌, ◌⊎◌, inl, inr, Bool-cases, arith, if◌then◌else◌, ◌==◌, Outcome,
}
use vurs.Prelude.Int.{ℤ}
use vurs.Value.{Value, Object, num, get}
use vurs.Registry.Consistent.{IsConsistent, empty-IsConsistent}
use vurs.Listeners.Laws.{empty-IsWellFormed}
use vurs.Listeners.Slots.{IsWellFormed}
use vurs.Client.State.{Client, Timer, Task, Settings, new}
use vurs.Client.Sending.{clear_timeout, cancel_delayed_send, set_timeout, delayed_send, interval_of}
use vurs.Client.Keeps.Sending.{IsBlind}

module _ {W : Type 0} where
  -- No timeout waits, or one alone, and it is the one that `_scheduledSend` names.
  abbrev pub IsSingle : Client W → Type 0
  IsSingle s =
      (s.timers ≡ []) ⊎ ((t : Timer) × (s.timers ≡ t ∷ []) × (s.scheduled_send ≡ some t.id))

  pub record IsSound (s : Client W) : Type 0 where
    pub single : IsSingle s
    pub well_formed : IsWellFormed s.listeners
    pub consistent : IsConsistent s.transports

  pub cancel_delayed_send-timers : (s : Client W) → IsSingle s → (cancel_delayed_send s).timers ≡ []
  unfolding cancel_delayed_send clear_timeout
  cancel_delayed_send-timers s (inl e) = ground arith
  cancel_delayed_send-timers s (inr (t, e, f)) = ground arith

  -- `_delayedSend` replaces whatever waits by one timeout, after the backoff and the advised
  -- interval, and remembers it.
  pub delayed_send-timers :
      (task : Task) (s : Client W)
      → IsSingle s
      → (delayed_send task s).timers
        ≡ record {
          id = s.next_timer;
          delay = s.backoff + interval_of (get "interval" s.advice);
          task = task;
        }
          ∷ []
  unfolding delayed_send
  delayed_send-timers task s h = rw (cancel_delayed_send-timers s h)

  pub cancel_delayed_send-IsSound : (s : Client W) → IsSound s → IsSound (cancel_delayed_send s)
  unfolding cancel_delayed_send
  cancel_delayed_send-IsSound s i = record {
    single = inl (cancel_delayed_send-timers s i.single);
    well_formed = i.well_formed;
    consistent = i.consistent;
  }

  pub delayed_send-IsSound :
      (task : Task) (s : Client W) → IsSound s → IsSound (delayed_send task s)
  unfolding delayed_send
  delayed_send-IsSound task s i = record {
    single = inr (_, delayed_send-timers task s i.single, refl);
    well_formed = i.well_formed;
    consistent = i.consistent;
  }

  pub IsSound-IsBlind : IsBlind (IsSound)
  IsSound-IsBlind = record {
    world = λ s w i. record {
      single = i.single;
      well_formed = i.well_formed;
      consistent = i.consistent;
    };
    message_id = λ s n i. record {
      single = i.single;
      well_formed = i.well_formed;
      consistent = i.consistent;
    };
    message_queue = λ s ms i. record {
      single = i.single;
      well_formed = i.well_formed;
      consistent = i.consistent;
    };
    batch = λ s n i. record {
      single = i.single;
      well_formed = i.well_formed;
      consistent = i.consistent;
    };
  }

  pub clear_timeout-IsSingle :
      (id : ℕ) (s : Client W)
      → IsSingle s
      → IsSingle (record s { timers = clear_timeout id s.timers })
  unfolding clear_timeout
  clear_timeout-IsSingle id s (inl e) = inl (ground arith)
  clear_timeout-IsSingle id s (inr (t, e, f)) = elim (Bool-cases (t.id == id)) [
    | inl same ↦ inl (ground arith)
    | inr other ↦ inr (t, ground arith, f)
  ]

  pub clear_timeout-IsSound :
      (id : ℕ) (s : Client W)
      → IsSound s
      → IsSound (record s { timers = clear_timeout id s.timers })
  clear_timeout-IsSound id s i = record {
    single = clear_timeout-IsSingle id s i.single;
    well_formed = i.well_formed;
    consistent = i.consistent;
  }

  -- What is left of the invariant when none of the variables that it reads has changed.
  pub unchanged-IsSound :
      (s t : Client W)
      → t.timers ≡ s.timers
      → t.scheduled_send ≡ s.scheduled_send
      → t.listeners ≡ s.listeners
      → t.transports ≡ s.transports
      → IsSound s
      → IsSound t
  unchanged-IsSound s t a b c d i = record {
    single = rw (a, b) i.single;
    well_formed = rw c i.well_formed;
    consistent = rw d i.consistent;
  }

  pub new-IsSound : (c : Settings) (w : W) → IsSound (new c w)
  unfolding new
  new-IsSound c w = record {
    single = inl refl;
    well_formed = empty-IsWellFormed;
    consistent = empty-IsConsistent;
  }
