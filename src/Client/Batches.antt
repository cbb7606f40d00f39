-- ===== src/Client/Batches.antt =====
-- media/js/cometd.js: `_startBatch`, `_queueSend` and `_endBatch` together, in batches that nest.
use vurs.Prelude.{
  ℕ, suc, Bool, true, false, ◌||◌, ◌&&◌, not, ltb, List, [], ◌∷◌, ◌++◌, ◌≡◌, refl, ap, ◌∙◌,
  if◌then◌else◌, ok, arith,
}
use vurs.Prelude.Int.{pos}
use vurs.Value.{Object}
use vurs.Client.State.{Client, Host, M, return, modify, resume, ◌>>◌}
use vurs.Client.Sending.{start_batch, end_batch, queue_send, send_all, flush_batch, is_disconnected}
use mathlib.Core.List.{append_assoc, append-nil}

-- What a page does while it publishes: it queues a message, or opens a batch, acts in it, ends it and
-- goes on.
pub data Script : Type 0 where
  done : Script
  queues : Object → Script → Script
  nests : Script → Script → Script

-- The messages of a script, in order.
unfoldable pub messages : Script → List Object
messages done = []
messages (queues m rest) = m ∷ messages rest
messages (nests inner rest) = messages inner ++ messages rest

module _ {W : Type 0} (host : Host W) where
  unfoldable pub run_script : Script → M W (Unit {0})
  run_script done = return tt
  run_script (queues m rest) = queue_send host m >> run_script rest
  run_script (nests inner rest) =
      modify start_batch >> run_script inner >> end_batch host >> run_script rest

  queue_send-in_batch :
      (m : Object) (n : ℕ) (s : Client W)
      → queue_send host m (record s { batch = pos (suc n) })
        ≡ (record s { batch = pos (suc n); message_queue = s.message_queue ++ m ∷ [] }, ok tt)
  unfolding queue_send
  queue_send-in_batch m n s = let positive : ltb 0 (suc n) ≡ true = ground arith in rw positive refl

  -- In a batch, nothing is sent.
  pub run_script-queued :
      (script : Script) (n : ℕ) (s : Client W)
      → run_script script (record s { batch = pos (suc n) }) ≡ (
        record s { batch = pos (suc n); message_queue = s.message_queue ++ messages script },
        ok tt,
      )
  unfolding run_script messages queue_send start_batch end_batch
  run_script-queued done n s = rw (append-nil s.message_queue) refl
  run_script-queued (queues m rest) n s = rw (queue_send-in_batch m n s) (
      run_script-queued rest n (record s { message_queue = s.message_queue ++ m ∷ [] })
      ∙ rw (append_assoc s.message_queue (m ∷ []) (messages rest)) refl)
  run_script-queued (nests inner rest) n s =
      ap (λ r. resume (λ _. run_script rest) (resume (λ _. end_batch host) r))
        (run_script-queued inner (suc n) s)
      ∙ run_script-queued rest n (record s { message_queue = s.message_queue ++ messages inner })
      ∙ rw (append_assoc s.message_queue (messages inner) (messages rest)) refl

  -- What a batch does that no other batch is around, whatever it queues and however batches nest in
  -- it: the messages are queued if the client is disconnected or holds its messages back. Otherwise
  -- the queue is emptied, and what it held and the batch's messages go to one `_send`, in order, or to
  -- none when there are none.
  pub batch-sends :
      (script : Script) (s : Client W)
      → s.batch ≡ pos 0
      → (modify start_batch >> run_script script >> end_batch host) s ≡ (
          if is_disconnected s.status || s.internal_batch
          then (
            record s { batch = pos 0; message_queue = s.message_queue ++ messages script },
            ok tt,
          )
          else send_all host
              (s.message_queue ++ messages script)
              (record s { batch = pos 0; message_queue = [] }))
  unfolding start_batch end_batch flush_batch
  batch-sends script s none =
      rw (none, run_script-queued script 0 s) (flushed (is_disconnected s.status) s.internal_batch)
    where
      flushed :
          (down held : Bool)
          → (if not down && not held then flush_batch host else return tt)
              (record s { batch = pos 0; message_queue = s.message_queue ++ messages script })
            ≡ (if down || held
                then (
                  record s { batch = pos 0; message_queue = s.message_queue ++ messages script },
                  ok tt,
                )
                else send_all host
                    (s.message_queue ++ messages script)
                    (record s { batch = pos 0; message_queue = [] }))
      flushed false false = refl
      flushed true held = refl
      flushed false true = refl
