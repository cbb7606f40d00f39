-- ===== src/Tests/Clients.antt =====
-- media/js/cometd.js: clients at fixed inputs.
use vurs.Prelude.{
  arith, ◌≡◌, refl, ℕ, String, true, false, Option, none, List, [], ◌∷◌, ◌++◌, Outcome, ok, thrown,
  type_error,
}
use vurs.Client.Notified.{IsQuiet, IsShort, Ends, notify_listeners-Ends}
use vurs.Client.Connection.{notify_listeners}
use vurs.Prelude.{zero, suc, some}
use vurs.Client.Down.{IsDown}
use vurs.Client.Down.Incoming.{receive-IsDown, on_failure-IsDown}
use vurs.Client.Messages.{receive, on_failure, meta_channel}
use vurs.Client.State.{disconnecting}
use vurs.Value.{bool, get}
use vurs.Value.{Object}
use vurs.Client.Batches.{Script, queues, nests, done, messages, run_script, batch-sends}
use vurs.Client.State.{modify, ◌>>◌}
use vurs.Client.Sending.{start_batch, end_batch, send_all}
use vurs.Prelude.Int.{pos}
use vurs.Value.{Value, undefined, str, field, end}
use vurs.Listeners.{Argument, nothing, function}
use vurs.Client.State.{Client, Host, Settings, Envelope, connected, new, return}
use vurs.Client.Keeps.{IsPolite, return-Keeps}
use vurs.Client.Sound.{IsSound}
use vurs.Client.Sound.Reachable.{run-IsSound}
use vurs.Client.Events.{Event, handshakes, registers_transport, subscribes, run}

-- A page without code of its own, and a transport that keeps what it sends.
abbrev pub calm : Host (List Envelope)
calm = record {
  accept = λ version cross_domain w t. true;
  get_type = λ w t. str "long-polling";
  send = λ t e longpoll settings advice w. (w ++ e ∷ [], ok tt);
  complete = λ t request success longpoll settings advice w. (w, ok tt);
  abort = λ t w. (w, ok tt);
  reset = λ t w. (w, ok tt);
  listener = λ scope f m. return tt;
  call = λ scope f. return tt;
  incoming = λ e. none;
  outgoing = λ e. none;
  extension_registered = λ e n. return tt;
  extension_unregistered = λ e. return tt;
  transport_registered = λ t type w. (w, ok tt);
  transport_unregistered = λ t w. (w, ok tt);
  rounds = 10;
}

abbrev pub defaults : Settings
defaults = record {
  url = "/cometd";
  max_connections = 2;
  backoff_increment = 1000;
  max_backoff = 60000;
  max_network_delay = 10000;
  reverse_incoming_extensions = true;
  cross_domain = false;
}

abbrev pub no_methods : Argument → String → Option ℕ
no_methods a k = none

abbrev pub no_parser : String → Outcome Value
no_parser s = thrown type_error

calm-IsPolite : {I : Client (List Envelope) → Type 0} → IsPolite I calm
calm-IsPolite = record {
  listener = λ scope f m. return-Keeps tt;
  call = λ scope f. return-Keeps tt;
  incoming = λ e. tt;
  outgoing = λ e. tt;
  extension_registered = λ e n. return-Keeps tt;
  extension_unregistered = λ e. return-Keeps tt;
}

abbrev session : List Event
session =
    registers_transport "long-polling" 0 none
    ∷ handshakes undefined
    ∷ subscribes "/chat" nothing (function 1) undefined
    ∷ []

run-IsSound_example : IsSound (run calm no_methods no_parser session (new defaults []))
run-IsSound_example = run-IsSound calm no_methods no_parser calm-IsPolite defaults [] session

-- A client whose server advises to retry, on a connection that has just been lost.
abbrev failing : Client (List Envelope)
failing = record (new defaults []) {
  status = connected;
  advice = field "reconnect" (str "retry") end;
}

abbrev message : String → Object
message text = field "data" (str text) end

-- Two messages, the second in a batch of its own.
abbrev nested : Script
nested = queues (message "a") (nests (queues (message "b") done) done)

batch-sends_example :
    (modify start_batch >> run_script calm nested >> end_batch calm) failing
    ≡ send_all calm
        (message "a" ∷ message "b" ∷ [])
        (record failing { batch = pos 0; message_queue = [] })
unfolding new messages
batch-sends_example = batch-sends calm nested failing refl

-- A client that waits for the answer to its disconnect.
abbrev leaving : Client (List Envelope)
leaving = record (new defaults []) { status = disconnecting }

abbrev connect_answer : Object
connect_answer = field "channel" (str "/meta/connect") (field "successful" (bool true) end)

receive-IsDown_example : IsDown (receive calm connect_answer leaving).0
unfolding get meta_channel
receive-IsDown_example =
    receive-IsDown calm calm-IsPolite connect_answer leaving (λ e. absurd (cc)) refl

on_failure-IsDown_example :
    IsDown (on_failure calm 1 undefined (connect_answer ∷ []) true leaving).0
on_failure-IsDown_example =
    on_failure-IsDown calm calm-IsPolite 1 undefined (connect_answer ∷ []) true leaving refl

calm-IsQuiet : IsQuiet calm
calm-IsQuiet = record { same = λ scope f m s. refl; returns = λ scope f m s e. absurd (cc) }

-- A client with one listener.
abbrev hearing : Client (List Envelope)
hearing = record (new defaults []) {
  listeners = record {
    channels = ("/chat", 0) ∷ [];
    arrays = (some (record { scope = nothing; callback = 1; subscription = true }) ∷ []) ∷ [];
  };
}

hearing-IsShort : IsShort calm hearing
hearing-IsShort zero = omega arith
hearing-IsShort (suc a) = omega arith

notify_listeners-Ends_example : Ends hearing (notify_listeners calm "/chat" connect_answer hearing)
notify_listeners-Ends_example =
    notify_listeners-Ends calm calm-IsQuiet "/chat" connect_answer hearing hearing-IsShort
