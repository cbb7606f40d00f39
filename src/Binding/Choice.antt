-- ===== src/Binding/Choice.antt =====
-- media/js/jquery/jquery.cometd.js: which of the two transports is used.
use vurs.Prelude.{
  refl, ◌≡◌, Bool, true, false, [], ◌∷◌, if◌then◌else◌, ok, arith, Outcome, List, String,
}
use vurs.Prelude.Dict
use vurs.Registry
use vurs.Transport.State.{Transport, Network}
use vurs.Client.State.{Envelope, Settings}
use vurs.Value.{Object}
use vurs.Transport.State.{Request}
use vurs.Transport.Requests.{Event, errs, run}
use vurs.Transport.Domain.{NoAbort, failed-IsConfined}
use vurs.Transport.Polling.{accepts_domain, long_polling, reset_long_polling}
use vurs.Binding.{Registered, registered}

-- Whether a transport accepts the case: the version does not matter to either.
abbrev pub is_accepting : {W : Type 0} → Bool → Registered W → Bool
is_accepting cross_domain (kind, t) = kind.accept cross_domain t

-- The types that are offered, by whether the long poll reaches other domains.
find_transport_types-registered :
    {W : Type 0} (network : Network W) (polling callback : Transport W) (cross_domain : Bool)
    → Registry.find_transport_types
        (is_accepting cross_domain)
        (registered network polling callback)
      ≡ ok (
          if cross_domain
          then (if polling.supports_cross_domain
              then "long-polling" ∷ "callback-polling" ∷ []
              else "callback-polling" ∷ [])
          else "long-polling" ∷ [])
unfolding registered Registry.find_transport_types accepts_domain Dict.lookup Dict.insert
    Registry.contains Registry.place
find_transport_types-registered network polling callback true = ground arith
find_transport_types-registered network polling callback false = ground arith

-- The types that a page's client offers to the server, on its own domain and on another one.
abbrev pub offered :
    {W : Type 0} → Network W → Transport W → Transport W → Bool → Outcome (List String)
offered network polling callback cross_domain =
    Registry.find_transport_types (is_accepting cross_domain) (registered network polling callback)

module _ {W : Type 0} (network : Network W) (settings : Settings) (advice : Object) where
  -- Once an error of a request has been reported to the long-polling transport of a page, and whatever
  -- it is given to send, and is answered, fails and times out after that, until it is aborted or
  -- reset: the client offers the callback poll alone on another domain, and the long poll alone on
  -- the page's own. After a reset, which each handshake of the page calls, it offers both on another domain,
  -- the long poll first, and still the long poll alone on the page's own.
  pub find_transport_types-failed :
      (e : Envelope) (r : Request) (reason : String) (es : List Event)
      (polling callback : Transport W)
      → NoAbort es
      → let kind = long_polling network in
        let u = run network kind settings advice (errs e r reason ∷ es) polling in
        (offered network u callback true ≡ ok ("callback-polling" ∷ []))
        × (offered network u callback false ≡ ok ("long-polling" ∷ []))
        × (offered network (kind.reset u) callback true
            ≡ ok ("long-polling" ∷ "callback-polling" ∷ []))
        × (offered network (kind.reset u) callback false ≡ ok ("long-polling" ∷ []))
  unfolding long_polling reset_long_polling
  find_transport_types-failed e r reason es polling callback n =
      let kind = long_polling network in
      let u = run network kind settings advice (errs e r reason ∷ es) polling in
      let confined = failed-IsConfined network settings advice e r reason es polling n in
      (
        rw (find_transport_types-registered network u callback true, confined) refl,
        find_transport_types-registered network u callback false,
        find_transport_types-registered network (kind.reset u) callback true,
        find_transport_types-registered network (kind.reset u) callback false,
      )
