-- ===== src/Transport/Polling.antt =====
-- media/js/cometd.js, org.cometd.LongPollingTransport and org.cometd.CallbackPollingTransport.
use vurs.Prelude.{
  ℕ, suc, ◌+◌, String, Bool, true, false, Option, none, some, ◌∷◌, not, ◌||◌, if◌then◌else◌, ltb,
  Outcome, ok, thrown, unfinished,
}
use vurs.Client.State.{Envelope}
use vurs.Transport.State.{Request, Answer, report, Transport, Network, Kind}
use vurs.Transport.Requests.{set_timeout, transport_failure, reset_requests}

-- The length of a text in ASCII, as an encoded one is.
unfoldable pub text_length : String → ℕ
text_length String.[] = 0
text_length (String.◌∷◌ c s) = suc (text_length s)

module _ {W : Type 0} where
  unfoldable pub accepts_domain : Bool → Transport W → Bool
  accepts_domain cross_domain t = t.supports_cross_domain || not cross_domain

  unfoldable pub keep_xhr : Request → Option ℕ → Transport W → Transport W
  keep_xhr r none t = t
  keep_xhr r (some xhr) t = record t { xhrs = (r.id, xhr) ∷ t.xhrs }

  -- The `onError` that a long-polling request is sent with.
  unfoldable pub long_polling_error :
      Envelope → Request → String → Transport W → Transport W × Option Answer
  unfolding transport_failure
  long_polling_error e r reason t =
      transport_failure e r reason (record t { supports_cross_domain = false })

  unfoldable pub reset_long_polling : Transport W → Transport W
  unfolding reset_requests
  reset_long_polling t = record (reset_requests t) { supports_cross_domain = true }

  -- The rest of the `try` statement of the long-polling `transportSend`, from the outcome of `xhrSend`.
  unfoldable pub after_xhr : Envelope → Request → Transport W → W × Outcome (Option ℕ) → Transport W
  unfolding keep_xhr set_timeout
  after_xhr e r t (w, ok xhr) = keep_xhr r xhr (record t { world = w })
  after_xhr e r t (w, thrown x) =
      set_timeout 0 (report e r "error") (record t { world = w; supports_cross_domain = false })
  after_xhr e r t (w, unfinished) = record t { world = w }

  unfoldable pub after_jsonp :
      Envelope → Request → Transport W → W × Outcome (Unit {0}) → Transport W
  unfolding set_timeout
  after_jsonp e r t (w, thrown x) = set_timeout 0 (report e r "error") (record t { world = w })
  after_jsonp e r t (w, ok a) = record t { world = w }
  after_jsonp e r t (w, unfinished) = record t { world = w }

  module _ (network : Network W) where
    unfoldable pub long_polling_send : Envelope → Request → Transport W → Transport W
    unfolding after_xhr
    long_polling_send e r t =
        after_xhr e r t (network.xhr_send e.url (network.to_json e.messages) r t.world)

    unfoldable pub url_length : Envelope → ℕ
    unfolding text_length
    url_length e = text_length e.url + text_length (network.encode_uri (network.to_json e.messages))

    -- A message that is too big is not sent: its failure is reported later.
    unfoldable pub callback_polling_send : Envelope → Request → Transport W → Transport W
    unfolding url_length after_jsonp set_timeout
    callback_polling_send e r t =
        if ltb 2000 (url_length e)
        then set_timeout 0 (report e r "error") t
        else after_jsonp e r t (network.jsonp_send e.url (network.to_json e.messages) r t.world)

    unfoldable pub long_polling : Kind W
    unfolding accepts_domain long_polling_send long_polling_error reset_long_polling
    long_polling = record {
      accept = accepts_domain;
      transport_send = long_polling_send;
      on_error = long_polling_error;
      reset = reset_long_polling;
    }

    unfoldable pub callback_polling : Kind W
    unfolding callback_polling_send transport_failure reset_requests
    callback_polling = record {
      accept = λ cross_domain t. cross_domain;
      transport_send = callback_polling_send;
      on_error = transport_failure;
      reset = reset_requests;
    }
