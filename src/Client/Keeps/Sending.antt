-- ===== src/Client/Keeps/Sending.antt =====
-- media/js/cometd.js: what the delivery of messages keeps, for an invariant that does not read what a
-- delivery writes.
use vurs.Prelude.{
  ℕ, suc, ◌++◌, String, Bool, false, Option, none, some, List, [], ◌∷◌, ◌||◌, ◌&&◌, not, type_error,
  ltb, Outcome,
}
use vurs.Prelude.Int.{ℤ, down, pos_part}
use vurs.Value.{Object}
use vurs.Client.State.{Client, Envelope, Host, lift_world}
use vurs.Client.Extensions.{apply_outgoing_extensions, in_order}
use vurs.Client.Sending.{
  stamp, request_url, prepare, transport_send, deliver, send, queue_send, send_all, flush_batch,
  end_batch, cons_if, not_paired, is_negative, is_zero, is_disconnected,
}
use vurs.Client.Keeps.{
  Keeps, CallbackKeeps, bind-Keeps, then-Keeps, with_state-Keeps, if-Keeps, modify-Keeps,
  return-Keeps, throw-Keeps, apply_from-Keeps,
}

-- The invariant holds on after the writes of a delivery.
pub record IsBlind {W : Type 0} (I : Client W → Type 0) : Type 0 where
  pub world : (s : Client W) (w : W) → I s → I (record s { world = w })
  pub message_id : (s : Client W) (n : ℕ) → I s → I (record s { message_id = n })
  pub message_queue : (s : Client W) (ms : List Object) → I s → I (record s { message_queue = ms })
  pub batch : (s : Client W) (n : ℤ) → I s → I (record s { batch = n })

-- The invariant holds on after what a delivery writes, the world of the host's `send` included.
pub record Delivers {W : Type 0} (I : Client W → Type 0) (host : Host W) : Type 0 where
  pub message_id : (s : Client W) (n : ℕ) → I s → I (record s { message_id = n })
  pub message_queue : (s : Client W) (ms : List Object) → I s → I (record s { message_queue = ms })
  pub batch : (s : Client W) (n : ℤ) → I s → I (record s { batch = n })
  pub sent :
      (t : ℕ) (e : Envelope) (longpoll : Bool) (s : Client W)
      → I s
      → I (record s { world = (host.send t e longpoll s.settings s.advice s.world).0 })

pub IsBlind-Delivers :
    {W : Type 0} {I : Client W → Type 0} (blind : IsBlind I) (host : Host W) → Delivers I host
IsBlind-Delivers blind host = record {
  message_id = blind.message_id;
  message_queue = blind.message_queue;
  batch = blind.batch;
  sent = λ t e longpoll s i. blind.world s (host.send t e longpoll s.settings s.advice s.world).0 i;
}

module _ {W : Type 0} {I : Client W → Type 0} where
  pub lift_world-Keeps : IsBlind I → (f : W → W × Outcome (Unit {0})) → Keeps I (lift_world f)
  lift_world-Keeps blind f = record { run = λ s i. blind.world s (f s.world).0 i }

  -- A call of a transport's method that leaves the invariant as it is.
  pub world-Keeps :
      (f : W → W × Outcome (Unit {0}))
      → ((s : Client W) → I s → I (record s { world = (f s.world).0 }))
      → Keeps I (lift_world f)
  world-Keeps f h = record { run = h }

  module _ (host : Host W) (delivers : Delivers I host)
      (outgoing : (e : ℕ) → CallbackKeeps I (host.outgoing e)) where
    stamp-Keeps : (m : Object) → Keeps I (stamp {W = W} m)
    unfolding stamp
    stamp-Keeps m = record { run = λ s i. delivers.message_id s (suc s.message_id) i }

    prepare-Keeps : (ms : List Object) → Keeps I (prepare host ms)
    unfolding prepare apply_outgoing_extensions
    prepare-Keeps [] = return-Keeps []
    prepare-Keeps (m ∷ ms) = bind-Keeps (stamp-Keeps m) λ m'.
        bind-Keeps (apply_from-Keeps I host.outgoing outgoing in_order host.rounds 0 (some m'))
          λ r. bind-Keeps (prepare-Keeps ms) λ rest. return-Keeps (cons_if r rest)

    transport_send-Keeps :
        (e : Envelope) (longpoll : Bool) (t : Option ℕ) → Keeps I (transport_send host e longpoll t)
    unfolding transport_send
    transport_send-Keeps e longpoll none = throw-Keeps type_error
    transport_send-Keeps e longpoll (some t) = record { run = delivers.sent t e longpoll }

    deliver-Keeps :
        (longpoll : Bool) (path : Option String) (ms : List Object)
        → Keeps I (deliver host longpoll path ms)
    unfolding deliver
    deliver-Keeps longpoll path [] = return-Keeps tt
    deliver-Keeps longpoll path (m ∷ ms) = with_state-Keeps λ s.
        transport_send-Keeps (record { url = request_url s.url path; messages = m ∷ ms }) longpoll
          s.transport

    pub send-Keeps :
        (ms : List Object) (longpoll : Bool) (path : Option String)
        → Keeps I (send host ms longpoll path)
    unfolding send
    send-Keeps ms longpoll path = bind-Keeps (prepare-Keeps ms) (deliver-Keeps longpoll path)

    pub queue_send-Keeps : (m : Object) → Keeps I (queue_send host m)
    unfolding queue_send
    queue_send-Keeps m = with_state-Keeps λ s.
        if-Keeps (ltb 0 (pos_part s.batch) || s.internal_batch)
          (modify-Keeps λ t. delivers.message_queue t (t.message_queue ++ m ∷ []))
          (send-Keeps (m ∷ []) false none)

    send_all-Keeps : (ms : List Object) → Keeps I (send_all host ms)
    unfolding send_all
    send_all-Keeps [] = return-Keeps tt
    send_all-Keeps (m ∷ ms) = send-Keeps (m ∷ ms) false none

    pub flush_batch-Keeps : Keeps I (flush_batch host)
    unfolding flush_batch
    flush_batch-Keeps = with_state-Keeps λ s.
        then-Keeps (modify-Keeps λ t. delivers.message_queue t []) (send_all-Keeps s.message_queue)

    pub end_batch-Keeps : Keeps I (end_batch host)
    unfolding end_batch
    end_batch-Keeps = then-Keeps (modify-Keeps λ s. delivers.batch s (down s.batch)) (
        with_state-Keeps λ s. if-Keeps (is_negative s.batch) (throw-Keeps not_paired) (
          if-Keeps (is_zero s.batch && not (is_disconnected s.status) && not s.internal_batch)
            flush_batch-Keeps (return-Keeps tt)))
