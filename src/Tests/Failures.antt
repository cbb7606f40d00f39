-- ===== src/Tests/Failures.antt =====
-- media/js/cometd.js, org.cometd.Transport: failing requests at fixed inputs.
use vurs.Prelude.{refl, false, List, [], ◌∷◌}
use vurs.Value.{end}
use vurs.Client.State.{Envelope}
use vurs.Transport
use vurs.Transport.State.{Transport}
use vurs.Transport.Requests.{queue_send, complete_request}
use mathlib.Core.List.{Perm}
use vurs.Transport.Requests
use vurs.Transport.Requests.{Event, run, perform}
use vurs.Transport.Polling.{long_polling, callback_polling}
use vurs.Transport.State.{Network, Kind}
use vurs.Transport.Bounds.{callback_polling-KeepsQueue}
use vurs.Prelude.{String, ◌++◌, none, ok}
use vurs.Transport.Domain.{accept-failed}
use vurs.Prelude.{◌≡◌, true}
use vurs.Transport.Kept.{
  IsLogging, callback_polling-Accounts, idle, sends, completes, accounted, Works-perm,
}
use vurs.Transport.Failing.{no_failure, next_failure, Failed, Fails-Failed}
use vurs.Tests.Clients.{defaults}
use vurs.Tests.Transports.{silent, first, second, recorder, one, one-in_flight, waiting}

-- A network that keeps the URL and the text of each call.
abbrev keeping : Network (List (String × String))
keeping = record {
  xhr_send = λ url text r calls. (calls ++ (url, text) ∷ [], ok none);
  jsonp_send = λ url text r calls. (calls ++ (url, text) ∷ [], ok tt);
  xhr_abort = λ x calls. calls;
  to_json = λ messages. "[]";
  encode_uri = λ text. text;
}

abbrev called : Envelope → String × String
called e = (e.url, keeping.to_json e.messages)

keeping-IsLogging : IsLogging called (λ calls. calls) keeping
keeping-IsLogging = record { xhr = λ e r w. refl; jsonp = λ e r w. refl }

abbrev to : String → Envelope
to url = record { url = url; messages = [] }

abbrev polling : Kind (List (String × String))
polling = callback_polling keeping

-- The first request fails, and the second envelope with it; then a third envelope is given.
abbrev tried_again : Transport (List (String × String))
tried_again = queue_send polling defaults end (to "/c") (
    complete_request polling defaults end one false (
      queue_send polling defaults end (to "/b")
        (queue_send polling defaults end (to "/a") (Transport.State.new []))))

Works-perm_example :
    Perm
      (accounted called (λ calls. calls) tried_again)
      (("/a", "[]") ∷ ("/b", "[]") ∷ ("/c", "[]") ∷ [])
unfolding Transport.State.new
Works-perm_example =
    Works-perm polling (callback_polling-KeepsQueue keeping) defaults end called (λ calls. calls)
      (callback_polling-Accounts called (λ calls. calls) keeping keeping-IsLogging) refl refl
      (sends (to "/c") (completes one false (sends (to "/b") (sends (to "/a") idle))))

Fails-Failed_example :
    Failed recorder defaults end waiting 1
      (complete_request recorder defaults end one false waiting)
Fails-Failed_example =
    Fails-Failed recorder defaults end (next_failure one one-in_flight no_failure)

-- A request fails, and another envelope is sent and succeeds.
abbrev afterwards : List Event
afterwards = Requests.sends second false ∷ Requests.completes one true false ∷ []

abbrev confined : Transport (List Envelope)
confined =
    run silent (long_polling silent) defaults end (Requests.errs first one "error" ∷ afterwards)
      (Transport.State.new [])

accept-failed_example :
    ((long_polling silent).accept true confined ≡ false)
    × ((long_polling silent).accept false confined ≡ true)
    × ((long_polling silent).accept true
          (perform silent (long_polling silent) defaults end Requests.aborts confined)
        ≡ true)
    × ((long_polling silent).accept false
          (perform silent (long_polling silent) defaults end Requests.aborts confined)
        ≡ true)
    × ((long_polling silent).accept true ((long_polling silent).reset confined) ≡ true)
    × ((long_polling silent).accept false ((long_polling silent).reset confined) ≡ true)
accept-failed_example =
    accept-failed silent defaults end first one "error" afterwards (Transport.State.new []) tt
