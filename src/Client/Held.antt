-- ===== src/Client/Held.antt =====
-- media/js/cometd.js: messages that are held back during a handshake, and the answer to the first connect.
use vurs.Prelude.{true, false, Bool-cases, inl, inr, [], ◌∷◌, ◌++◌, ◌≡◌, refl, ap, ◌∙◌, ok}
use vurs.Prelude.Int.{pos}
use vurs.Value.{Value, Object, get, truthy}
use vurs.Client.State.{Client, Host, modify, resume, ◌>>◌}
use vurs.Client.Sending.{queue_send, flush_batch, send_all, is_disconnected, start_batch, end_batch}
use vurs.Client.Connection.{notify_listeners, hold_messages}
use vurs.Client.Responses.{
  connect_response, connect_accepted, follow_connect, connect_action, connect_status,
}
use vurs.Client.Batches.{Script, done, queues, nests, messages, run_script, run_script-queued}
use mathlib.Core.List.{append_assoc, append-nil}

module _ {W : Type 0} (host : Host W) where
  end_batch-held :
      (props : Value) (s : Client W)
      → end_batch host (record (hold_messages props s) { batch = pos 1 })
        ≡ (hold_messages props s, ok tt)
  unfolding end_batch hold_messages
  end_batch-held props s = elim (Bool-cases (is_disconnected s.status)) [
    | inl e ↦ rw e refl
    | inr e ↦ rw e refl
  ]

  -- While the client holds its messages back, in no batch, nothing is sent.
  run_script-held :
      (script : Script) (props : Value) (s : Client W)
      → run_script host script (hold_messages props s) ≡ (
        record (hold_messages props s) { message_queue = s.message_queue ++ messages script },
        ok tt,
      )
  unfolding run_script messages start_batch end_batch queue_send hold_messages
  run_script-held done props s = rw (append-nil s.message_queue) refl
  run_script-held (queues m rest) props s =
      run_script-held rest props (record s { message_queue = s.message_queue ++ m ∷ [] })
      ∙ rw (append_assoc s.message_queue (m ∷ []) (messages rest)) refl
  run_script-held (nests inner rest) props s =
      ap (λ r. resume (λ _. run_script host rest) (resume (λ _. end_batch host) r))
        (run_script-queued host inner 0 (hold_messages props s))
      ∙ ap (resume (λ _. run_script host rest))
          (end_batch-held props (record s { message_queue = s.message_queue ++ messages inner }))
      ∙ run_script-held rest props (record s { message_queue = s.message_queue ++ messages inner })
      ∙ rw (append_assoc s.message_queue (messages inner) (messages rest)) refl

  -- What a page queues while the client holds its messages back, in batches or not, waits for the answer
  -- to a connect: if it is successful, all that waits goes to one `_send`, in order, or to none when
  -- nothing does. Only then are the listeners told of the answer and its advice is followed.
  pub held-sent :
      (script : Script) (props : Value) (m : Object) (s : Client W)
      → truthy (get "successful" m) ≡ true
      → (run_script host script >> connect_response host m) (hold_messages props s)
        ≡ (send_all host (s.message_queue ++ messages script)
              >> notify_listeners host "/meta/connect" m
              >> modify (follow_connect (connect_action host s)))
            (connect_status host
              (connect_action host s)
              (record (hold_messages props s) { internal_batch = false; message_queue = [] }))
  unfolding connect_response connect_accepted flush_batch hold_messages
  held-sent script props m s h =
      ap (resume (λ _. connect_response host m)) (run_script-held script props s)
      ∙ elim (Bool-cases (is_disconnected s.status)) [
        | inl e ↦ rw (h, e) refl
        | inr e ↦ rw (h, e) refl
      ]
