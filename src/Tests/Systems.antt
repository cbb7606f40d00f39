-- ===== src/Tests/Systems.antt =====
-- media/js/cometd.js: a client with its transports at fixed inputs.
use vurs.Prelude.{ℕ, ◌≤◌, none, List, [], ◌∷◌, length, true, false, ok}
use vurs.Value.{Value, undefined, num, str, obj, get, field, end}
use vurs.Prelude.Int.{pos}
use vurs.Prelude.{arith}
use vurs.Client.State.{Envelope, Host, new, return}
use vurs.Client.Events
use vurs.Client.Keeps.{IsPolite, return-Keeps}
use vurs.Client.Joined.{World, with_transports, Step, inits, configures, acts, happens, move_all}
use vurs.Client.Joined.Bounded.{Fits, move_all-bounded}
use vurs.Transport
use vurs.Transport.State.{Network, Kind}
use vurs.Transport.Requests
use vurs.Transport.Polling.{long_polling}
use vurs.Transport.Bounds.{long_polling-KeepsQueue}
use vurs.Tests.Clients.{defaults, no_methods, no_parser}
use vurs.Tests.Transports.{silent}

-- A page without code of its own. What it has for the transports is not used.
abbrev pub blank : Host (World (List Envelope))
blank = record {
  accept = λ version cross_domain w t. true;
  get_type = λ w t. undefined;
  send = λ t e longpoll settings advice w. (w, ok tt);
  complete = λ t request success longpoll settings advice w. (w, ok tt);
  abort = λ t w. (w, ok tt);
  reset = λ t w. (w, ok tt);
  listener = λ scope f m. return tt;
  call = λ scope f. return tt;
  incoming = λ e. none;
  outgoing = λ e. none;
  extension_registered = λ e n. return tt;
  extension_unregistered = λ e. return tt;
  transport_registered = λ t type w. (w, ok tt);
  transport_unregistered = λ t w. (w, ok tt);
  rounds = 10;
}

abbrev kinds : ℕ → Kind (List Envelope)
kinds t = long_polling silent

blank-IsPolite : IsPolite (Fits 4) (with_transports silent kinds blank)
unfolding with_transports
blank-IsPolite = record {
  listener = λ scope f m. return-Keeps tt;
  call = λ scope f. return-Keeps tt;
  incoming = λ e. tt;
  outgoing = λ e. tt;
  extension_registered = λ e n. return-Keeps tt;
  extension_unregistered = λ e. return-Keeps tt;
}

-- A page that allows four connections, and later three.
abbrev allows : ℕ → Value
allows n = obj (field "url" (str "/cometd") (field "maxConnections" (num (pos n)) end))

abbrev steps : List Step
steps =
    inits "vurs.org" (allows 4) undefined
    ∷ acts (Events.registers_transport "long-polling" 0 none)
    ∷ acts (Events.handshakes undefined)
    ∷ acts (Events.sends (field "channel" (str "/chat") end))
    ∷ configures "vurs.org" (allows 3)
    ∷ happens 0 (Requests.completes (record { id = 1; longpoll = false }) false false)
    ∷ []

move_all-bounded_example :
    length
      ((move_all silent kinds blank no_methods no_parser steps
          (new defaults (λ k. Transport.State.new []))).world
        0).requests
    ≤ 3
unfolding get
move_all-bounded_example =
    move_all-bounded silent kinds (λ t. long_polling-KeepsQueue silent) blank no_methods no_parser 4
      defaults blank-IsPolite (λ k. []) steps 0 (omega arith) (omega arith, (omega arith, tt))
