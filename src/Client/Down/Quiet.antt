-- ===== src/Client/Down/Quiet.antt =====
-- media/js/cometd.js, `_disconnect`: what a client does once it is disconnected.
use vurs.Prelude.{
  ℕ, Bool, true, false, Option, none, some, [], ◌≡◌, refl, sym, subst, Outcome, ok, thrown,
  unfinished,
}
use vurs.Client.State.{Client, Host, modify, resume, ◌>>◌}
use vurs.Client.Sending.{cancel_delayed_send, start_batch, end_batch, clear_timeout}
use vurs.Client.Messages.{abort_transport, forget_connection, disconnect_now}
use vurs.Client.Api.{fire, find_timer, forget_timer, run_found}
use vurs.Client.Batches.{Script, messages, run_script, batch-sends}
use vurs.Client.Sound.{IsSound, cancel_delayed_send-timers}

module _ {W : Type 0} (host : Host W) where
  ended :
      (o : Outcome (Unit {0})) (u : Client W)
      → (resume (λ _. modify forget_connection) (u, o)).1 ≡ ok tt
      → (resume (λ _. modify forget_connection) (u, o)).0 ≡ forget_connection u
  ended (ok a) u h = refl
  ended (thrown e) u h = absurd (cc)
  ended unfinished u h = absurd (cc)

  aborted :
      (t : Option ℕ) (c : Client W)
      → (resume (λ _. modify forget_connection) (abort_transport host t c)).1 ≡ ok tt
      → (w : W) × ((resume (λ _. modify forget_connection) (abort_transport host t c)).0
          ≡ forget_connection (record c { world = w }))
  aborted none c h = absurd (cc)
  aborted (some t) c h = (
    (host.abort t c.world).0,
    ended (host.abort t c.world).1 (record c { world = (host.abort t c.world).0 }) h,
  )

  -- `_disconnect` changes what the transport's abort changes, and forgets the connection.
  disconnect_now-state :
      (abort : Bool) (s : Client W)
      → (disconnect_now host abort s).1 ≡ ok tt
      → (w : W) × ((disconnect_now host abort s).0
          ≡ forget_connection (record (cancel_delayed_send s) { world = w }))
  unfolding disconnect_now cancel_delayed_send
  disconnect_now-state false s h = (s.world, refl)
  disconnect_now-state true s h = aborted s.transport (cancel_delayed_send s) h

  -- None of the client's own timeouts makes it act.
  abbrev pub IsIdle : Client W → Type 0
  IsIdle t =
      ((id : ℕ) → fire host id t ≡ (t, ok tt))
      × ((script : Script)
          → (modify start_batch >> run_script host script >> end_batch host) t
            ≡ (record t { message_queue = messages script }, ok tt))

  fire-no_timer : (id : ℕ) (t : Client W) → t.timers ≡ [] → fire host id t ≡ (t, ok tt)
  unfolding fire find_timer forget_timer run_found clear_timeout
  fire-no_timer id t none_left = rw none_left refl

  batch-forgotten :
      (script : Script) (t : Client W)
      → (modify start_batch >> run_script host script >> end_batch host) (forget_connection t)
        ≡ (record (forget_connection t) { message_queue = messages script }, ok tt)
  unfolding forget_connection
  batch-forgotten script t = batch-sends host script (forget_connection t) refl

  forgotten-IsIdle : (t : Client W) → t.timers ≡ [] → IsIdle (forget_connection t)
  unfolding forget_connection
  forgotten-IsIdle t none_left =
      (λ id. fire-no_timer id (forget_connection t) none_left, λ script. batch-forgotten script t)

  -- Once a sound client is disconnected, its transport's abort having returned if it was asked for, it
  -- is idle: whatever timeout of its own is made to fire, for a connect or a handshake, nothing
  -- happens, and a batch only queues its messages, on an empty queue. The timeouts that its transports
  -- set for their requests are left aside.
  pub disconnect_now-IsIdle :
      (abort : Bool) (s : Client W)
      → IsSound s
      → (disconnect_now host abort s).1 ≡ ok tt
      → IsIdle (disconnect_now host abort s).0
  unfolding cancel_delayed_send
  disconnect_now-IsIdle abort s sound h =
      let (w, is) = disconnect_now-state abort s h in
      subst IsIdle (sym is) (
        forgotten-IsIdle (record (cancel_delayed_send s) { world = w })
          (cancel_delayed_send-timers s sound.single))
