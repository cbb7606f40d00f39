-- ===== src/Tests/Cycles.antt =====
-- media/js/cometd.js: rounds of a connected client at fixed inputs.
use vurs.Registry
use vurs.Registry.Consistent.{empty-IsConsistent, add-IsConsistent}
use vurs.Registry.Negotiate.{Choice, NoneUsable}
use vurs.Client.Connection.{accepts_now}
use vurs.Client.Messages.{receive}
use vurs.Client.Polls.Shaken.{negotiated, Starts, receive-Starts}
use vurs.Prelude.{
  ℕ, ◌⊎◌, inl, thrown, message, Bool, true, some, none, List, [], ◌∷◌, ◌++◌, ◌≡◌, refl, arith, ok,
}
use vurs.Value.{Items, item, nil, arr, strings, str, num, bool, Object, field, end, get}
use vurs.Prelude.Int.{pos}
use vurs.Client.State.{Client, Envelope, Host, connected, handshaking, run_connect, new, return}
use vurs.Client.Responses.{action_of}
use vurs.Client.Sending.{interval_of}
use vurs.Client.Events.{run}
use vurs.Listeners
use vurs.Client.Polls.Quiet.{IsAloof}
use vurs.Client.Polls.Cycle.{IsReady, rounds, connects}
use vurs.Client.Joined.{World, with_transports}
use vurs.Client.Joined.Polled.{KeepsLongpoll, Use, joined, view}
use vurs.Client.Joined.Cycle.{run-polls}
use vurs.Client.Joined.Failing.{run-timers, run-capped}
use vurs.Client.Polls.Failed.{Failure, failures}
use vurs.Client.Sound.{IsSingle}
use vurs.Value.{null}
use vurs.Client.Sending.{is_disconnected}
use vurs.Prelude.{inr, ◌≤◌, ◌+◌, false}
use vurs.Transport
use vurs.Transport.State.{Kind}
use vurs.Tests.Transports.{recorder, silent}
use vurs.Tests.Systems.{blank}
use vurs.Tests.Clients.{defaults, no_methods, no_parser}

-- A transport that keeps what it is given to send, and listeners that do nothing.
abbrev pub logging : Host (List (Envelope × Bool))
logging = record {
  accept = λ version cross_domain w t. true;
  get_type = λ w t. str "long-polling";
  send = λ t e longpoll settings advice w. (w ++ (e, longpoll) ∷ [], ok tt);
  complete = λ t request success longpoll settings advice w. (w, ok tt);
  abort = λ t w. (w, ok tt);
  reset = λ t w. (w, ok tt);
  listener = λ scope f m. return tt;
  call = λ scope f. return tt;
  incoming = λ e. none;
  outgoing = λ e. none;
  extension_registered = λ e n. return tt;
  extension_unregistered = λ e. return tt;
  transport_registered = λ t type w. (w, ok tt);
  transport_unregistered = λ t w. (w, ok tt);
  rounds = 10;
}

logging-IsAloof : IsAloof logging (λ w. w)
logging-IsAloof = record {
  listened = λ scope f m s. s.world;
  alone = λ scope f m s. refl;
  same_log = λ scope f m s. refl;
  returns = λ scope f m s h. cc h;
}

abbrev pub advice : Object
advice = field "reconnect" (str "retry") (field "interval" (num (pos 50)) end)

-- A page without code of its own, and a transport that keeps what it is given to send.
abbrev recorders : ℕ → Kind (List Envelope)
recorders k = recorder

recorder-KeepsLongpoll : KeepsLongpoll recorder (λ w. w)
recorder-KeepsLongpoll = record {
  send-longpoll = λ e r t. refl;
  send-ids = λ e r t. refl;
  send-type = λ e r t. refl;
  send-log = λ e r t. refl;
}

abbrev use_now : World (List Envelope) → Use
use_now = view silent recorders (λ w. w) blank 0 recorder-KeepsLongpoll "long-polling"

blank-IsAloof : IsAloof blank use_now
blank-IsAloof = record {
  listened = λ scope f m s. s.world;
  alone = λ scope f m s. refl;
  same_log = λ scope f m s. refl;
  returns = λ scope f m s h. cc h;
}

abbrev system : Host (World (List Envelope))
system = joined silent recorders (λ w. w) blank 0 recorder-KeepsLongpoll "long-polling"

abbrev polling_client : Client (World (List Envelope))
polling_client =
    record (new defaults (λ k. record (Transport.State.new []) { type = some "long-polling" })) {
      transport = some 0;
      status = connected;
      client_id = str "7";
      advice = advice;
      scheduled_send = some 0;
      timers = record { id = 0; delay = 50; task = run_connect } ∷ [];
      next_timer = 1;
    }

polling_client-IsReady : IsReady system 0 0 polling_client
unfolding new action_of get interval_of Listeners.empty with_transports
polling_client-IsReady = record {
  waiting = record {
    used = refl;
    live = refl;
    queue = refl;
    backoff = refl;
    retry = refl;
    next = refl;
    waits = refl;
    short = λ a. omega arith;
  };
  plain = refl;
}

abbrev accepted : Object
accepted = field "channel" (str "/meta/connect") (field "successful" (bool true) end)

abbrev polled : Client (World (List Envelope))
polled = run system no_methods no_parser (rounds 0 1 (accepted ∷ accepted ∷ [])) polling_client

run-polls_example :
    IsReady system 0 2 polled
    × ((polled.world 0).longpoll_request ≡ none)
    × ((polled.world 0).world ≡ connects "/cometd" (str "long-polling") (str "7") 1 2)
unfolding new get Transport.State.new
run-polls_example =
    run-polls silent recorders (λ w. w) blank 0 recorder-KeepsLongpoll "long-polling" blank-IsAloof
      no_methods no_parser (accepted ∷ accepted ∷ []) 0 polling_client polling_client-IsReady refl
      refl ((refl, refl, tt), ((refl, refl, tt), tt))

-- Three connects fail.
abbrev broken : List Failure
broken = (null, accepted) ∷ (null, accepted) ∷ (null, accepted) ∷ []

polling_client-IsSingle : IsSingle polling_client
unfolding new
polling_client-IsSingle = inr (_, refl, refl)

abbrev failed : Client (World (List Envelope))
failed = run system no_methods no_parser (failures 0 1 broken) polling_client

run-timers_example : failed.timers ≡ record { id = 3; delay = 3050; task = run_connect } ∷ []
unfolding new get interval_of Transport.State.new
run-timers_example =
    run-timers silent recorders (λ w. w) blank 0 recorder-KeepsLongpoll "long-polling" blank-IsAloof
      no_methods no_parser broken 0 polling_client polling_client-IsReady polling_client-IsSingle
      refl refl (refl, (refl, (refl, tt))) (omega arith)

run-capped_example :
    (failed.backoff ≤ 61000)
    × (is_disconnected failed.status ≡ false)
    × (failed.timers ≡ record { id = 3; delay = failed.backoff + 50; task = run_connect } ∷ [])
    × ((failed.world 0).longpoll_request ≡ none)
    × ((failed.world 0).world ≡ connects "/cometd" (str "long-polling") (str "7") 1 3)
unfolding new get interval_of Transport.State.new
run-capped_example =
    run-capped silent recorders (λ w. w) blank 0 recorder-KeepsLongpoll "long-polling" blank-IsAloof
      no_methods no_parser broken 0 polling_client polling_client-IsReady polling_client-IsSingle
      refl refl (refl, (refl, (refl, tt)))

-- A client that shakes hands, with one transport.
abbrev shaking : Client (List (Envelope × Bool))
shaking = record (new defaults []) {
  transports = (Registry.add "long-polling" 0 none Registry.empty).0;
  status = handshaking;
  advice = advice;
}

abbrev offers : Items
offers = item (str "long-polling") (item (str "callback-polling") nil)

abbrev welcome : Object
welcome = field "channel" (str "/meta/handshake") (
    field "successful" (bool true)
      (field "clientId" (str "7") (field "supportedConnectionTypes" (arr offers) end)))

receive-Starts_example :
    (NoneUsable
        (accepts_now logging (get "version" welcome) shaking)
        shaking.transports.transports
        (strings offers)
        shaking.transports.types
      × ((receive logging welcome shaking).1
          ≡ thrown (message "Could not negotiate transport with server"))
      × ((receive logging welcome shaking).0.timers ≡ shaking.timers))
    ⊎ ((c : Choice
          (accepts_now logging (get "version" welcome) shaking)
          shaking.transports.transports
          (strings offers)
          shaking.transports.types
          (negotiated logging welcome offers shaking))
        × Starts logging
            (λ w. w)
            logging-IsAloof
            welcome
            c.transport
            shaking
            (receive logging welcome shaking).0)
unfolding new get action_of Listeners.empty
receive-Starts_example =
    receive-Starts logging (λ w. w) logging-IsAloof welcome offers shaking refl refl refl refl refl
      refl (inl refl) (add-IsConsistent "long-polling" 0 none Registry.empty empty-IsConsistent)
      (λ a. omega arith)
