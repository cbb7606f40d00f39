-- ===== src/Client/Joined/Bounded.antt =====
-- media/js/cometd.js: how many requests the transports of a client have in flight.
use vurs.Prelude.{
  ℕ, ◌-◌, ◌≤◌, String, Bool-cases, inl, inr, Option, List, [], ◌∷◌, ◌==◌, length, ltb, arith, ◌===◌,
  Outcome, ok,
}
use vurs.Value.{Value, Object, obj, get}
use vurs.Listeners.{Argument}
use vurs.Client.State.{Client, Host, Settings, new}
use vurs.Client.Sending.{
  reset_backoff, increase_backoff, start_batch, delayed_send, cancel_delayed_send, set_timeout,
}
use vurs.Client.Connection.{set_status, forget_session, hold_messages, begin_handshaking}
use vurs.Client.Responses.{remember_handshake}
use vurs.Client.Messages.{forget_connection, take_advice}
use vurs.Client.Api
use vurs.Client.Keeps.{IsPolite, Keeps, then-Keeps}
use vurs.Client.Configure.{
  configure, init, configured, forget_url, configuration_of, url_of, or_default,
}
use vurs.Client.Keeps.Steps.{Respects, pick}
use vurs.Client.Keeps.Runs.{perform-Keeps}
use vurs.Client.Keeps.Events.{start_handshake-Keeps}
use vurs.Client.Joined.{
  World, call_one, with_transports, Step, configures, inits, acts, happens, move, move_all,
}
use vurs.Transport.State.{Request, Transport, Network, Kind}
use vurs.Transport
use vurs.Transport.Requests
use vurs.Transport.Bounds.{KeepsQueue, perform-IsWithin}

-- The maximum number of connections is at most the given one, and every transport keeps within that.
abbrev pub Fits : {V : Type 0} → ℕ → Client (World V) → Type 0
Fits most s =
    (s.settings.max_connections ≤ most) × ((t : ℕ) → length (s.world t).requests ≤ most - 1)

-- The `maxConnections` of a configuration, or its default.
abbrev pub configured_maximum : Value → ℕ
configured_maximum v = or_default 2 (get "maxConnections" (configuration_of v))

-- Every call of `configure` and `init` sets a maximum that is at most the given one.
abbrev pub AllFit : ℕ → List Step → Type 0
AllFit most [] = Unit {0}
AllFit most (configures location v ∷ es) = (configured_maximum v ≤ most) × AllFit most es
AllFit most (inits location v props ∷ es) = (configured_maximum v ≤ most) × AllFit most es
AllFit most (acts e ∷ es) = AllFit most es
AllFit most (happens t e ∷ es) = AllFit most es

module _ {V : Type 0} (most : ℕ) where
  call_one-Fits :
      (n : ℕ) (f : Transport V → Transport V × Outcome (Unit {0})) (s : Client (World V))
      → (length (s.world n).requests ≤ most - 1 → length (f (s.world n)).0.requests ≤ most - 1)
      → Fits most s
      → Fits most (record s { world = (call_one n f s.world).0 })
  unfolding call_one
  call_one-Fits n f s keeps i =
      (i.0, λ k. elim (Bool-cases (k == n)) [ inl e ↦ rw e (keeps (i.1 n)) | inr e ↦ rw e (i.1 k) ])

  take_advice-Fits :
      (host : Host (World V)) (m : Object) (s : Client (World V))
      → Fits most s
      → Fits most (take_advice host m s)
  take_advice-Fits host m s i = with_advice (get "advice" m)
    where
      with_advice : (v : Value) → Fits most (elim v [ obj a ↦ record s { advice = a } | _ ↦ s ])
      with_advice (obj a) = i
      with_advice _ = i

module _ {V : Type 0} (network : Network V) (kinds : ℕ → Kind V)
    (keeps : (t : ℕ) → KeepsQueue (kinds t)) (most : ℕ) (page : Host (World V)) where
  event-Fits :
      (t : ℕ) (e : Requests.Event) (s : Client (World V))
      → Fits most s
      → Fits most (record s {
        world =
            (call_one t
              (λ u. (Requests.perform network (kinds t) s.settings s.advice e u, ok tt))
              s.world).0;
      })
  event-Fits t e s i =
      call_one-Fits most t
        (λ u. (Requests.perform network (kinds t) s.settings s.advice e u, ok tt)) s
        (λ h.
          let kept =
            perform-IsWithin (kinds t) (keeps t) s.settings s.advice network most i.0 e
              (s.world t) in
          kept h)
        i

  Fits-Respects : Respects (Fits most) (with_transports network kinds page)
  unfolding call_one with_transports set_status reset_backoff increase_backoff start_batch
      delayed_send cancel_delayed_send set_timeout forget_session hold_messages begin_handshaking
      remember_handshake forget_connection Api.forget_handshake Api.forget_timer Api.push_extension
      Api.drop_extension Api.remove_listener Api.register_delegate Api.clear_listeners
      Api.clear_subscriptions Api.set_backoff_increment Requests.perform Requests.registered
      Requests.unregistered
  Fits-Respects = record {
    delivers = record {
      message_id = λ s n i. i;
      message_queue = λ s ms i. i;
      batch = λ s n i. i;
      sent = λ t e longpoll s i. event-Fits t (Requests.sends e longpoll) s i;
    };
    set_status = λ st s i. i;
    reset_backoff = λ s i. i;
    increase_backoff = λ s i. pick (Fits most) (ltb s.backoff s.max_backoff) _ _ i i;
    delayed_send = λ task s i. i;
    cancel_delayed_send = λ s i. i;
    internal_batch = λ s b i. i;
    transport = λ s t i. i;
    client_id = λ s v i. i;
    hold_messages = λ props s i. i;
    begin_handshaking = λ t s i. i;
    remember_handshake = λ s i. i;
    forget_handshake = λ s i. i;
    forget_session = λ s i. i;
    forget_connection = λ s i. i;
    forget_timer = λ id s i. i;
    take_advice = take_advice-Fits most (with_transports network kinds page);
    push_extension = λ n e s i. i;
    drop_extension = λ n s i. i;
    start_batch = λ s i. i;
    remove_listener = λ h s i. i;
    register_delegate = λ c b d s i. i;
    clear_listeners = λ s i. i;
    clear_subscriptions = λ s i. i;
    set_backoff_increment = λ period s i. i;
    add_transport = λ type t index s i. i;
    remove_transport = λ type s i. i;
    completed = λ t request success longpoll s i.
        event-Fits t
          (Requests.completes (record { id = request; longpoll = longpoll }) success longpoll) s i;
    aborted = λ t s i. event-Fits t Requests.aborts s i;
    was_reset = λ t s i.
        call_one-Fits most t (λ u. ((kinds t).reset u, ok tt)) s
          (λ h. rw ((keeps t).reset-requests (s.world t)) (omega arith)) i;
    transport_registered =
        λ t type s i. call_one-Fits most t (λ u. (Requests.registered type u, ok tt)) s (λ h. h) i;
    transport_unregistered =
        λ t s i. call_one-Fits most t (λ u. (Requests.unregistered u, ok tt)) s (λ h. h) i;
  }

  module _ (method_of : Argument → String → Option ℕ) (parse : String → Outcome Value)
      (polite : IsPolite (Fits most) (with_transports network kinds page)) where
    configure-Keeps :
        (location : String) (v : Value)
        → configured_maximum v ≤ most
        → Keeps (Fits {V = V} most) (configure location v)
    unfolding configure configured forget_url
    configure-Keeps location v fit = record { run = λ s i. kept s i }
      where
        kept : (s : Client (World V)) → Fits most s → Fits most (configure location v s).0
        kept s i = elim (Bool-cases (url_of (get "url" (configuration_of v)) === "")) [
          | inl none_given ↦ rw none_given i
          | inr given ↦ rw given (fit, i.1)
        ]

    init-Keeps :
        (location : String) (v props : Value)
        → configured_maximum v ≤ most
        → Keeps (Fits {V = V} most) (init location (with_transports network kinds page) v props)
    unfolding init
    init-Keeps location v props fit =
        then-Keeps (configure-Keeps location v fit)
          (start_handshake-Keeps (with_transports network kinds page) Fits-Respects polite props)

    move_all-Fits :
        (es : List Step) (s : Client (World V))
        → AllFit most es
        → Fits most s
        → Fits most (move_all network kinds page method_of parse es s)
    unfolding move_all move
    move_all-Fits [] s fit i = i
    move_all-Fits (configures location v ∷ es) s (fit, more) i =
        move_all-Fits es _ more ((configure-Keeps location v fit).run s i)
    move_all-Fits (inits location v props ∷ es) s (fit, more) i =
        move_all-Fits es _ more ((init-Keeps location v props fit).run s i)
    move_all-Fits (acts e ∷ es) s fit i = move_all-Fits es _ fit (
        (perform-Keeps (with_transports network kinds page) method_of parse Fits-Respects polite
            e).run
          s i)
    move_all-Fits (happens t e ∷ es) s fit i = move_all-Fits es _ fit (event-Fits t e s i)

-- A client with its transports, of kinds whose own methods leave the requests and the queue alone, but
-- for `reset`, which empties both, and a number that no configured maximum of connections exceeds,
-- neither the first nor one that the page configures later: whatever events of the client's life and
-- calls of `configure` and `init` come, and whatever is sent, answered, fails, times out and is aborted
-- on the transports, in any order, no transport ever has more requests in flight, long polls left aside,
-- than one less than the number, where the page's own listeners and extensions keep it so.
pub move_all-bounded :
    {V : Type 0} (network : Network V) (kinds : ℕ → Kind V)
    → ((t : ℕ) → KeepsQueue (kinds t))
    → (page : Host (World V)) (method_of : Argument → String → Option ℕ)
      (parse : String → Outcome Value) (most : ℕ) (c : Settings)
    → IsPolite (Fits most) (with_transports network kinds page)
    → (w : ℕ → V) (es : List Step) (t : ℕ) → c.max_connections ≤ most
    → AllFit most es
    → length
        ((move_all network kinds page method_of parse es
            (new c (λ k. Transport.State.new (w k)))).world
          t).requests
      ≤ most - 1
unfolding new Transport.State.new
move_all-bounded network kinds keeps page method_of parse most c polite w es t first fit =
    (move_all-Fits network kinds keeps most page method_of parse polite es
        (new c (λ k. Transport.State.new (w k))) fit (first, λ k. omega arith)).1
      t
