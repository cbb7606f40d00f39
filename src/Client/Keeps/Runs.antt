-- ===== src/Client/Keeps/Runs.antt =====
-- media/js/cometd.js: every sequence of events keeps an invariant that the steps of a client keep.
use vurs.Prelude.{ℕ, String, true, false, not, Option, List, [], ◌∷◌, Outcome}
use vurs.Value.{Value}
use vurs.Listeners.{Argument, resolve_scoped_callback, has_subscriptions}
use vurs.Client.State.{Client, Host, M}
use vurs.Client.Keeps.{
  Keeps, IsPolite, bind-Keeps, then-Keeps, with_state-Keeps, modify-Keeps, return-Keeps,
  outcome-Keeps,
}
use vurs.Client.Sending.{start_batch}
use vurs.Client.Keeps.Steps.{Respects}
use vurs.Client.Keeps.Messages.{receive-Keeps, on_success-Keeps, on_failure-Keeps, fire-Keeps}
use vurs.Client.Keeps.Events.{
  queues, ends, register_extension-Keeps, forget_extension-Keeps, register_transport-Keeps,
  unregister_transport-Keeps, start_handshake-Keeps, disconnect-Keeps, run_batch-Keeps,
  register_delegate-Keeps, unsubscribe-Keeps, announce-Keeps,
}
use vurs.Client.Extensions.{find_extension}
use vurs.Client.Api
use vurs.Client.Events.{
  Event, handshakes, disconnects, starts_batch, ends_batch, batches, publishes, sends, receives,
  adds_listener, removes_listener, clears_listeners, clears_subscriptions, subscribes, unsubscribes,
  registers_extension, unregisters_extension, registers_transport, unregisters_transport,
  sets_backoff_increment, succeeds, fails, fires, ignore, perform, run,
}

module _ {W : Type 0} {I : Client W → Type 0} (host : Host W)
    (method_of : Argument → String → Option ℕ) (parse : String → Outcome Value)
    (steps : Respects I host) (polite : IsPolite I host) where
  ignore-Keeps : {A : Type 0} {m : M W A} → Keeps I m → Keeps I (ignore m)
  ignore-Keeps h = bind-Keeps h λ a. return-Keeps tt

  subscribe-Keeps :
      (c : String) (scope callback : Argument) (props : Value)
      → Keeps I (Api.subscribe host method_of c scope callback props)
  unfolding Api.subscribe
  subscribe-Keeps c scope callback props = with_state-Keeps λ s.
      bind-Keeps
        (bind-Keeps (outcome-Keeps (resolve_scoped_callback method_of scope callback))
          (register_delegate-Keeps host steps polite c true))
        λ h.
          then-Keeps
            (announce-Keeps host steps polite (not (has_subscriptions c s.listeners)) c props)
            (return-Keeps h)

  add_listener-Keeps :
      (c : String) (scope callback : Argument)
      → Keeps I (Api.add_listener {W = W} method_of c scope callback)
  unfolding Api.add_listener
  add_listener-Keeps c scope callback =
      bind-Keeps (outcome-Keeps (resolve_scoped_callback method_of scope callback))
        (register_delegate-Keeps host steps polite c false)

  batch-Keeps : (scope callback : Argument) → Keeps I (Api.batch host method_of scope callback)
  unfolding Api.batch
  batch-Keeps scope callback =
      bind-Keeps (outcome-Keeps (resolve_scoped_callback method_of scope callback))
        (run_batch-Keeps host steps polite)

  -- Every event keeps the invariant, whatever the page's code does, so long as that code keeps it.
  pub perform-Keeps : (e : Event) → Keeps I (perform host method_of parse e)
  unfolding perform start_batch Api.clear_listeners Api.clear_subscriptions
      Api.set_backoff_increment Api.unregister_extension Api.publish
  perform-Keeps (handshakes props) = start_handshake-Keeps host steps polite props
  perform-Keeps (disconnects props) = disconnect-Keeps host steps polite props
  perform-Keeps starts_batch = modify-Keeps {f = start_batch} steps.start_batch
  perform-Keeps ends_batch = ends host steps polite
  perform-Keeps (batches scope callback) = batch-Keeps scope callback
  perform-Keeps (publishes c content props) =
      queues host steps polite (Api.with_props props (Api.publish_message c content))
  perform-Keeps (sends m) = queues host steps polite m
  perform-Keeps (receives m) = receive-Keeps host steps polite m
  perform-Keeps (adds_listener c scope callback) =
      ignore-Keeps {m = Api.add_listener method_of c scope callback}
        (add_listener-Keeps c scope callback)
  perform-Keeps (removes_listener h) =
      modify-Keeps {f = Api.remove_listener h} (steps.remove_listener h)
  perform-Keeps clears_listeners = modify-Keeps {f = Api.clear_listeners} steps.clear_listeners
  perform-Keeps clears_subscriptions =
      modify-Keeps {f = Api.clear_subscriptions} steps.clear_subscriptions
  perform-Keeps (subscribes c scope callback props) =
      ignore-Keeps {m = Api.subscribe host method_of c scope callback props}
        (subscribe-Keeps c scope callback props)
  perform-Keeps (unsubscribes h props) = unsubscribe-Keeps host steps polite h props
  perform-Keeps (registers_extension n e) =
      ignore-Keeps {m = Api.register_extension host n e}
        (register_extension-Keeps host steps polite n e)
  perform-Keeps (unregisters_extension n) = ignore-Keeps {m = Api.unregister_extension host n} (
      with_state-Keeps
        λ s. forget_extension-Keeps host steps polite n (find_extension n s.extensions))
  perform-Keeps (registers_transport type t index) =
      ignore-Keeps {m = Api.register_transport host type t index}
        (register_transport-Keeps host steps polite type t index)
  perform-Keeps (unregisters_transport type) =
      ignore-Keeps {m = Api.unregister_transport host type}
        (unregister_transport-Keeps host steps polite type)
  perform-Keeps (sets_backoff_increment period) =
      modify-Keeps {f = Api.set_backoff_increment period} (steps.set_backoff_increment period)
  perform-Keeps (succeeds request response longpoll) =
      on_success-Keeps host steps polite parse request response longpoll
  perform-Keeps (fails request xhr ms longpoll) =
      on_failure-Keeps host steps polite request xhr ms longpoll
  perform-Keeps (fires id) = fire-Keeps host steps polite id

  pub run-Keeps : (es : List Event) (s : Client W) → I s → I (run host method_of parse es s)
  unfolding run
  run-Keeps [] s i = i
  run-Keeps (e ∷ es) s i = run-Keeps es _ ((perform-Keeps e).run s i)
