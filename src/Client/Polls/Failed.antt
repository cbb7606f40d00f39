-- ===== src/Client/Polls/Failed.antt =====
-- media/js/cometd.js: any number of failures of a client's connect in a row.
use vurs.Prelude.{ℕ, suc, true, false, some, List, [], ◌∷◌, ◌≡◌, sym, ap, ◌∙◌, subst, String, ok}
use vurs.Value.{Value, Object, str, get}
use vurs.Client.State.{Client, Host, modify, return, resume, caught}
use vurs.Client.Connection.{notify_listeners}
use vurs.Client.Responses.{failure_message, notify_failed, connect_failure, follow_connect_failure}
use vurs.Client.Messages.{fail_all, dispatch_failure, meta_channel, handle_failure, on_failure}
use vurs.Client.Events.{Event, fires, fails}
use vurs.Client.Notified.{IsShort}
use vurs.Client.Polls.Quiet.{Quietly, resume-Quietly, notify_listeners-Quietly}
use vurs.Client.Polls.Line.{Line}
use vurs.Client.Polls.Answered.{complete_on-carried}

-- A failure as the client hears of it: the request, and the connect message that was not answered.
abbrev pub Failure : Type 0
Failure = Value × Object

abbrev pub AllConnects : List Failure → Type 0
AllConnects [] = Unit {0}
AllConnects ((xhr, m) ∷ fs) = (get "channel" m ≡ str "/meta/connect") × AllConnects fs

-- The timeouts fire one after the other, and each connect, the request `r` and those after it, fails.
unfoldable pub failures : ℕ → ℕ → List Failure → List Event
failures id r [] = []
failures id r ((xhr, m) ∷ fs) = fires id ∷ fails r xhr (m ∷ []) true ∷ failures (suc id) (suc r) fs

module _ {W V : Type 0} (host : Host W) (t : ℕ) (type : Value) (view : W → V)
    (line : Line host t type view) where
  notify_failed-Quietly :
      (channel : String) (m : Object) (s : Client W)
      → IsShort host s
      → Quietly view s (notify_failed host channel m s)
  notify_failed-Quietly channel m s short =
      resume-Quietly view s _ (notify_listeners host "/meta/unsuccessful" m)
        (notify_listeners-Quietly host view line.aloof channel m s short)
        λ w.
          notify_listeners-Quietly host view line.aloof "/meta/unsuccessful" m
            (record s { world = w }) short

  -- A failure of the long poll in flight frees the line, and its listeners are told.
  pub failed :
      (r : ℕ) (xhr : Value) (m : Object) (s : Client W)
      → line.Flying r (view s.world)
      → s.transport ≡ some t
      → get "channel" m ≡ str "/meta/connect"
      → IsShort host s
      → (w : W) × (on_failure host r xhr (m ∷ []) true s
          ≡ (follow_connect_failure (record s { world = w }), ok tt))
        × line.Free (view w)
        × (line.next (view w) ≡ line.next (view s.world))
        × (line.log (view w) ≡ line.log (view s.world))
  unfolding on_failure handle_failure fail_all dispatch_failure meta_channel connect_failure
  failed r xhr m s flying used channel short =
      let x = (host.complete t r false true s.settings s.advice s.world).0 in
      let u = record s { world = x } in
      let (free, again, logged) = line.completed r false s.settings s.advice s.world flying in
      let told = failure_message (str "/meta/connect") xhr m "retry" s.backoff in
      let (w, same, kept) = notify_failed-Quietly "/meta/connect" told u short in
      (
        w,
        ap (λ c. caught (resume (λ _. fail_all host xhr (m ∷ [])) c))
              (complete_on-carried host t type view line r false s flying used)
            ∙ ap
                (λ v.
                  caught (resume (λ _. return tt) (dispatch_failure host (meta_channel v) xhr m u)))
                channel
            ∙ ap
                (λ c.
                  caught (resume (λ _. return tt) (resume (λ _. modify follow_connect_failure) c)))
                same,
        subst line.Free (sym kept) free,
        ap line.next kept ∙ again,
        ap line.log kept ∙ logged,
      )
