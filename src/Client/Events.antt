-- ===== src/Client/Events.antt =====
-- media/js/cometd.js: a client's life as a sequence of events, each a call of a public method, an answer
-- that a transport passes on, or a timeout that fires. Every exception ends its event only.
use vurs.Prelude.{ℕ, String, Bool, Option, List, [], ◌∷◌, Outcome}
use vurs.Value.{Value, Object}
use vurs.Listeners.{Argument, Handle}
use vurs.Client.State.{Client, Host, M, return, modify, ◌>>=◌}
use vurs.Client.Sending.{start_batch, end_batch, queue_send}
use vurs.Client.Messages.{receive, on_success, on_failure}
use vurs.Client.Api

pub data Event : Type 0 where
  handshakes disconnects : Value → Event
  starts_batch ends_batch : Event
  batches : Argument → Argument → Event
  publishes : String → Value → Value → Event
  sends receives : Object → Event
  adds_listener : String → Argument → Argument → Event
  removes_listener : Handle → Event
  clears_listeners clears_subscriptions : Event
  subscribes : String → Argument → Argument → Value → Event
  unsubscribes : Handle → Value → Event
  registers_extension : String → ℕ → Event
  unregisters_extension : String → Event
  registers_transport : String → ℕ → Option ℕ → Event
  unregisters_transport : String → Event
  sets_backoff_increment : ℕ → Event
  succeeds : ℕ → Value → Bool → Event
  fails : ℕ → Value → List Object → Bool → Event
  fires : ℕ → Event

abbrev pub ignore : {W A : Type 0} → M W A → M W (Unit {0})
ignore m = m >>= λ _. return tt

module _ {W : Type 0} (host : Host W) (method_of : Argument → String → Option ℕ)
    (parse : String → Outcome Value) where
  unfoldable pub perform : Event → M W (Unit {0})
  perform (handshakes props) = Api.start_handshake host props
  perform (disconnects props) = Api.disconnect host props
  perform starts_batch = modify start_batch
  perform ends_batch = end_batch host
  perform (batches scope callback) = Api.batch host method_of scope callback
  perform (publishes channel content props) = Api.publish host channel content props
  perform (sends m) = queue_send host m
  perform (receives m) = receive host m
  perform (adds_listener channel scope callback) =
      ignore (Api.add_listener method_of channel scope callback)
  perform (removes_listener h) = modify (Api.remove_listener h)
  perform clears_listeners = modify Api.clear_listeners
  perform clears_subscriptions = modify Api.clear_subscriptions
  perform (subscribes channel scope callback props) =
      ignore (Api.subscribe host method_of channel scope callback props)
  perform (unsubscribes h props) = Api.unsubscribe host h props
  perform (registers_extension n e) = ignore (Api.register_extension host n e)
  perform (unregisters_extension n) = ignore (Api.unregister_extension host n)
  perform (registers_transport type t index) = ignore (Api.register_transport host type t index)
  perform (unregisters_transport type) = ignore (Api.unregister_transport host type)
  perform (sets_backoff_increment period) = modify (Api.set_backoff_increment period)
  perform (succeeds request response longpoll) = on_success host parse request response longpoll
  perform (fails request xhr ms longpoll) = on_failure host request xhr ms longpoll
  perform (fires id) = Api.fire host id

  unfoldable pub run : List Event → Client W → Client W
  unfolding perform
  run [] s = s
  run (e ∷ es) s = run es (perform e s).0
