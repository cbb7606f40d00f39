-- ===== src/Client/Joined/Cycle.antt =====
-- media/js/cometd.js: the rounds of a connected client on its transport.
use vurs.Prelude.{ℕ, suc, ◌+◌, String, Option, none, some, List, ◌++◌, ◌≡◌, length, Outcome}
use vurs.Value.{Value, Object, str}
use vurs.Listeners.{Argument}
use vurs.Client.State.{Client, Envelope, Host}
use vurs.Client.Events.{run}
use vurs.Transport.State.{Network, Kind}
use vurs.Client.Joined.{World}
use vurs.Client.Joined.Polled.{KeepsLongpoll, joined, view, with_transports-Line}
use vurs.Client.Polls.Quiet.{IsAloof}
use vurs.Client.Polls.Cycle.{IsReady, AllGood, rounds, connects, run-IsReady}

module _ {V : Type 0} (network : Network V) (kinds : ℕ → Kind V) (log : V → List Envelope)
    (page : Host (World V)) (t : ℕ) (keeps : KeepsLongpoll (kinds t) log) (type : String)
    (aloof : IsAloof page (view network kinds log page t keeps type))
    (method_of : Argument → String → Option ℕ) (parse : String → Outcome Value) where
  -- A live client without extensions, waiting messages or backoff, whose advice is to retry and whose one
  -- timeout connects after the advised interval; whose listeners return or throw, leave the client and
  -- the use of its transport alone and are fewer than the bound on the rounds; and its transport, of
  -- a kind whose sends are logged and leave the long poll, the numbering and the type alone, with no long
  -- poll in flight. However many connect messages are answered, each under its request's number, successfully,
  -- and with the advice to retry or none: after the last answer the client is again so, with a new
  -- timeout and no long poll in flight, and the transport has sent one connect message for each
  -- timeout, to the server's URL for connects, numbered one after the other and with the client's id if it has one,
  -- and nothing else.
  pub run-polls :
      (ms : List Object) (id : ℕ) (s : Client (World V))
      → IsReady (joined network kinds log page t keeps type) t id s
      → (s.world t).longpoll_request ≡ none
      → (s.world t).type ≡ some type
      → AllGood ms
      → let host = joined network kinds log page t keeps type in
        let u = run host method_of parse (rounds id (suc (s.world t).request_ids) ms) s in
        IsReady host t (id + length ms) u
        × ((u.world t).longpoll_request ≡ none)
        × (log (u.world t).world
            ≡ log (s.world t).world
              ++ connects s.url (str type) s.client_id (suc s.message_id) (length ms))
  run-polls ms id s ready free typed good =
      let (again, free', logged) =
        run-IsReady (joined network kinds log page t keeps type) t (str type)
          (view network kinds log page t keeps type)
          (with_transports-Line network kinds log page t keeps type aloof) method_of parse ms id s
          ready (free, typed) good in
      (again, free'.0, logged)
