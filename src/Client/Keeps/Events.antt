-- ===== src/Client/Keeps/Events.antt =====
-- media/js/cometd.js: every public method keeps an invariant that the steps of a client keep.
use vurs.Prelude.{
  Bool-cases, inl, inr, ℕ, String, Bool, true, false, Option, none, some, [], ◌∷◌, Outcome, ok,
  thrown, unfinished,
}
use vurs.Value.{Value, Object}
use vurs.Registry.{Registry}
use vurs.Registry
use vurs.Listeners.{Delegate, Handle, has_subscriptions}
use vurs.Client.State.{Client, Host, disconnecting, throw}
use vurs.Client.Keeps.{
  Keeps, IsPolite, then-Keeps, with_state-Keeps, if-Keeps, modify-Keeps, return-Keeps, throw-Keeps,
}
use vurs.Client.Keeps.Sending.{world-Keeps, send-Keeps, queue_send-Keeps, end_batch-Keeps}
use vurs.Client.Keeps.Steps.{Respects}
use vurs.Client.Keeps.Connection.{handshake-Keeps}
use vurs.Client.Extensions.{has_extension}
use vurs.Client.Sending.{is_disconnected, start_batch, end_batch, queue_send}
use vurs.Client.Connection.{set_status}
use vurs.Client.Api

module _ {W : Type 0} {I : Client W → Type 0} (host : Host W) (steps : Respects I host)
    (polite : IsPolite I host) where
  pub queues : (m : Object) → Keeps I (queue_send host m)
  queues = queue_send-Keeps host steps.delivers polite.outgoing

  pub ends : Keeps I (end_batch host)
  ends = end_batch-Keeps host steps.delivers polite.outgoing

  pub register_extension-Keeps : (n : String) (e : ℕ) → Keeps I (Api.register_extension host n e)
  unfolding Api.register_extension
  register_extension-Keeps n e = with_state-Keeps λ s.
      if-Keeps (has_extension n s.extensions) (return-Keeps false) (
        then-Keeps
          (then-Keeps (modify-Keeps {f = Api.push_extension n e} (steps.push_extension n e))
            (polite.extension_registered e n))
          (return-Keeps true))

  pub forget_extension-Keeps : (n : String) (e : Option ℕ) → Keeps I (Api.forget_extension host n e)
  unfolding Api.forget_extension
  forget_extension-Keeps n none = return-Keeps false
  forget_extension-Keeps n (some e) =
      then-Keeps
        (then-Keeps (modify-Keeps {f = Api.drop_extension n} (steps.drop_extension n))
          (polite.extension_unregistered e))
        (return-Keeps true)

  pub register_transport-Keeps :
      (type : String) (t : ℕ) (index : Option ℕ)
      → Keeps I (Api.register_transport host type t index)
  unfolding Api.register_transport
  register_transport-Keeps type t index = record {
    run = λ s i.
        let told =
          world-Keeps (host.transport_registered t type) (steps.transport_registered t type) in
        elim (Bool-cases (Registry.add type t index s.transports).1) [
          | inl new ↦
              rw new
                ((then-Keeps told (return-Keeps true)).run _ (steps.add_transport type t index s i))
          | inr old ↦ rw old i
        ];
  }

  pub tell_unregistered-Keeps : (t : Option ℕ) → Keeps I (Api.tell_unregistered host t)
  unfolding Api.tell_unregistered
  tell_unregistered-Keeps none = return-Keeps none
  tell_unregistered-Keeps (some t) =
      then-Keeps (world-Keeps (host.transport_unregistered t) (steps.transport_unregistered t))
        (return-Keeps (some t))

  pub unregister_transport-Keeps : (type : String) → Keeps I (Api.unregister_transport host type)
  unfolding Api.unregister_transport
  unregister_transport-Keeps type = record {
    run = λ s i.
        (tell_unregistered-Keeps (Registry.remove type s.transports).1).run _
          (steps.remove_transport type s i);
  }

  pub start_handshake-Keeps : (props : Value) → Keeps I (Api.start_handshake host props)
  unfolding Api.start_handshake
  start_handshake-Keeps props =
      then-Keeps (modify-Keeps {f = Api.forget_handshake} steps.forget_handshake)
        (handshake-Keeps host steps polite props)

  pub disconnect-Keeps : (props : Value) → Keeps I (Api.disconnect host props)
  unfolding Api.disconnect
  disconnect-Keeps props = with_state-Keeps λ s.
      if-Keeps (is_disconnected s.status) (return-Keeps tt) (
        then-Keeps (modify-Keeps {f = set_status disconnecting} (steps.set_status disconnecting)) (
          send-Keeps host steps.delivers polite.outgoing
            (Api.with_props props Api.disconnect_message ∷ []) false (some "disconnect")))

  pub rethrow-Keeps : (r : Client W × Outcome (Unit {0})) → I r.0 → I (Api.end_and_rethrow host r).0
  unfolding Api.end_and_rethrow
  rethrow-Keeps (s, ok a) i = i
  rethrow-Keeps (s, thrown e) i =
      (then-Keeps {n = throw {A = Unit {0}} e} ends (throw-Keeps e)).run s i
  rethrow-Keeps (s, unfinished) i = i

  pub run_batch-Keeps : (d : Delegate) → Keeps I (Api.run_batch host d)
  unfolding Api.run_batch start_batch
  run_batch-Keeps d = record {
    run = λ s i. rethrow-Keeps _ (
        (then-Keeps (polite.call d.scope d.method) ends).run (start_batch s)
          (steps.start_batch s i));
  }

  pub register_delegate-Keeps :
      (c : String) (b : Bool) (d : Delegate) → Keeps I (Api.register_delegate {W = W} c b d)
  unfolding Api.register_delegate
  register_delegate-Keeps c b d = record { run = steps.register_delegate c b d }

  pub unsubscribe-Keeps : (h : Handle) (props : Value) → Keeps I (Api.unsubscribe host h props)
  unfolding Api.unsubscribe
  unsubscribe-Keeps h props =
      then-Keeps (modify-Keeps {f = Api.remove_listener h} (steps.remove_listener h)) (
        with_state-Keeps λ s.
          if-Keeps (has_subscriptions h.channel s.listeners) (return-Keeps tt)
            (queues (Api.with_props props (Api.unsubscribe_message h.channel))))

  pub announce-Keeps :
      (b : Bool) (c : String) (props : Value) → Keeps I (Api.announce host b c props)
  unfolding Api.announce
  announce-Keeps true c props = queues (Api.with_props props (Api.subscribe_message c))
  announce-Keeps false c props = return-Keeps tt
