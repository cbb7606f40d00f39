-- ===== src/Client/Sound/Reachable.antt =====
-- media/js/cometd.js: a client is sound after any sequence of events.
use vurs.Prelude.{ℕ, String, Option, List, refl, Outcome, arith}
use vurs.Value.{Value}
use vurs.Registry.Consistent.{add-IsConsistent, remove-IsConsistent}
use vurs.Listeners.{Argument}
use vurs.Listeners.Laws.{
  clear_subscriptions-IsWellFormed, clear_listeners-IsWellFormed, add_listener-Adds,
  remove_listener-IsWellFormed,
}
use vurs.Client.State.{Host, Settings, new}
use vurs.Client.Sending.{reset_backoff, increase_backoff, start_batch}
use vurs.Client.Connection.{set_status, forget_session, hold_messages, begin_handshaking}
use vurs.Client.Responses.{remember_handshake}
use vurs.Client.Messages.{forget_connection}
use vurs.Client.Api
use vurs.Client.Keeps.{IsPolite}
use vurs.Client.Keeps.Sending.{IsBlind-Delivers}
use vurs.Client.Keeps.Steps.{Respects}
use vurs.Client.Keeps.Runs.{run-Keeps}
use vurs.Client.Sound.{
  IsSound, IsSound-IsBlind, unchanged-IsSound, new-IsSound, delayed_send-IsSound,
  cancel_delayed_send-IsSound, clear_timeout-IsSound,
}
use vurs.Client.Events.{Event, run}

module _ {W : Type 0} where
  IsSound-Respects : (host : Host W) → Respects IsSound host
  unfolding set_status reset_backoff increase_backoff start_batch forget_session hold_messages
      begin_handshaking remember_handshake forget_connection Api.forget_handshake Api.forget_timer
      Api.push_extension Api.drop_extension Api.remove_listener Api.register_delegate
      Api.clear_listeners Api.clear_subscriptions Api.set_backoff_increment
  IsSound-Respects host = record {
    delivers = IsBlind-Delivers IsSound-IsBlind host;
    set_status = λ st s. unchanged-IsSound s _ refl refl refl refl;
    reset_backoff = λ s. unchanged-IsSound s _ refl refl refl refl;
    increase_backoff =
        λ s. unchanged-IsSound s _ (ground arith) (ground arith) (ground arith) (ground arith);
    delayed_send = delayed_send-IsSound;
    cancel_delayed_send = cancel_delayed_send-IsSound;
    internal_batch = λ s b. unchanged-IsSound s _ refl refl refl refl;
    transport = λ s t. unchanged-IsSound s _ refl refl refl refl;
    client_id = λ s v. unchanged-IsSound s _ refl refl refl refl;
    hold_messages = λ props s. unchanged-IsSound s _ refl refl refl refl;
    begin_handshaking = λ t s. unchanged-IsSound s _ refl refl refl refl;
    remember_handshake = λ s. unchanged-IsSound s _ refl refl refl refl;
    forget_handshake = λ s. unchanged-IsSound s _ refl refl refl refl;
    forget_session = λ s i. record {
      single = i.single;
      well_formed = clear_subscriptions-IsWellFormed s.listeners i.well_formed;
      consistent = i.consistent;
    };
    forget_connection = λ s. unchanged-IsSound s _ refl refl refl refl;
    forget_timer = clear_timeout-IsSound;
    take_advice =
        λ m s. unchanged-IsSound s _ (ground arith) (ground arith) (ground arith) (ground arith);
    push_extension = λ n e s. unchanged-IsSound s _ refl refl refl refl;
    drop_extension = λ n s. unchanged-IsSound s _ refl refl refl refl;
    start_batch = λ s. unchanged-IsSound s _ refl refl refl refl;
    remove_listener = λ h s i. record {
      single = i.single;
      well_formed = remove_listener-IsWellFormed h s.listeners i.well_formed;
      consistent = i.consistent;
    };
    register_delegate = λ c b d s i. record {
      single = i.single;
      well_formed = (add_listener-Adds c d b s.listeners i.well_formed).3;
      consistent = i.consistent;
    };
    clear_listeners = λ s i. record {
      single = i.single;
      well_formed = clear_listeners-IsWellFormed s.listeners;
      consistent = i.consistent;
    };
    clear_subscriptions = λ s i. record {
      single = i.single;
      well_formed = clear_subscriptions-IsWellFormed s.listeners i.well_formed;
      consistent = i.consistent;
    };
    set_backoff_increment = λ period s. unchanged-IsSound s _ refl refl refl refl;
    add_transport = λ type t index s i. record {
      single = i.single;
      well_formed = i.well_formed;
      consistent = add-IsConsistent type t index s.transports i.consistent;
    };
    remove_transport = λ type s i. record {
      single = i.single;
      well_formed = i.well_formed;
      consistent = remove-IsConsistent type s.transports i.consistent;
    };
    completed = λ t request success longpoll s. IsSound-IsBlind.world s _;
    aborted = λ t s. IsSound-IsBlind.world s _;
    was_reset = λ t s. IsSound-IsBlind.world s _;
    transport_registered = λ t type s. IsSound-IsBlind.world s _;
    transport_unregistered = λ t s. IsSound-IsBlind.world s _;
  }

module _ {W : Type 0} (host : Host W) (method_of : Argument → String → Option ℕ)
    (parse : String → Outcome Value) (polite : IsPolite IsSound host) where
  -- A client that starts anew is sound after any sequence of calls of its public methods, answers of
  -- its transports and timeouts, where the page's own listeners and extensions
  -- keep it sound, as they do if they act through its public methods: at most one connect or
  -- handshake waits for its timeout, and it is the one that `_scheduledSend` can cancel; each channel
  -- has an array of listeners of its own; the types of transport are distinct, and each has a
  -- transport.
  pub run-IsSound :
      (c : Settings) (w : W) (es : List Event) → IsSound (run host method_of parse es (new c w))
  run-IsSound c w es =
      run-Keeps host method_of parse (IsSound-Respects host) polite es (new c w) (new-IsSound c w)
