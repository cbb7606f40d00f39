-- ===== src/Tests/Pages.antt =====
-- media/js/cometd.js and media/js/jquery/jquery.cometd.js: URLs and transports at fixed inputs.
use vurs.Prelude.{String, some, List, [], ◌∷◌, ◌≡◌, true, false, ok}
use vurs.Transport.State.{Transport, Network, Request}
use vurs.Transport.State
use vurs.Binding.{Page, network}
use vurs.Binding.Choice.{offered, find_transport_types-failed}
use vurs.Client.State.{Envelope}
use vurs.Value.{end}
use vurs.Transport.Polling.{long_polling}
use vurs.Transport.Requests.{errs, run}
use vurs.Tests.Clients.{defaults}

-- A browser that records the URLs of its calls and lets every one succeed.
abbrev page : Page (List String)
page = record {
  ajax = λ call r urls. (call.url ∷ urls, ok (some 1));
  xhr_abort = λ x urls. urls;
  to_json = λ messages. "[]";
  encode_uri = λ text. text;
}

abbrev handshakes : Envelope
handshakes = record { url = "/cometd/handshake"; messages = [] }

abbrev one : Request
one = record { id = 1; longpoll = false }

-- The request of the handshake fails.
abbrev confined : Transport (List String)
confined =
    run (network page []) (long_polling (network page [])) defaults end
      (errs handshakes one "error" ∷ []) (State.new [])

find_transport_types-failed_example :
    (offered (network page []) confined (State.new []) true ≡ ok ("callback-polling" ∷ []))
    × (offered (network page []) confined (State.new []) false ≡ ok ("long-polling" ∷ []))
    × (offered
          (network page [])
          ((long_polling (network page [])).reset confined)
          (State.new [])
          true
        ≡ ok ("long-polling" ∷ "callback-polling" ∷ []))
    × (offered
          (network page [])
          ((long_polling (network page [])).reset confined)
          (State.new [])
          false
        ≡ ok ("long-polling" ∷ []))
find_transport_types-failed_example =
    find_transport_types-failed (network page []) defaults end handshakes one "error" []
      (State.new []) (State.new []) tt
