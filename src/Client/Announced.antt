-- ===== src/Client/Announced.antt =====
-- media/js/cometd.js, `subscribe` and `unsubscribe`: what the server is told of the subscriptions.
pub mod Told
use vurs.Prelude.{
  ℕ, String, Bool, true, false, not, Bool-cases, Option, List, [], ◌∷◌, ◌++◌, ◌||◌, ◌===◌, ◌≡◌,
  refl, sym, subst, ap, ◌∙◌, inl, inr, arith, eq_iff, if◌then◌else◌, ltb, Outcome, ok, thrown,
  unfinished,
}
use vurs.Prelude.Int.{pos_part}
use vurs.Value.{Value, Object, end, get, is_str, is_undefined, mixin, mixin_value}
use vurs.Value.Objects.{Distinct, get-mixin_object}
use vurs.Listeners.{Argument, Delegate, Handle, has_subscriptions, resolve_scoped_callback}
use vurs.Listeners
use vurs.Listeners.Slots.{IsWellFormed}
use vurs.Listeners.Laws.{add_listener-Adds, remove_listener-IsWellFormed}
use vurs.Listeners.Counted.{
  has_subscriptions-add_listener, has_subscriptions-remove_other, has_subscriptions-remove_listener,
}
use vurs.Client.State.{Client, Host, return, resume, ◌>>=◌, ◌>>◌}
use vurs.Client.Connection.{lift_outcome}
use vurs.Client.Sending.{queue_send}
use vurs.Client.Api.{
  subscribe, unsubscribe, announce, register_delegate, remove_listener, with_props,
  subscribe_message, unsubscribe_message,
}
use vurs.Client.Announced.Told.{told, told-push, tells-subscribe, tells-unsubscribe}

-- What a page does to its subscriptions.
pub data Act : Type 0 where
  subscribes : String → Argument → Argument → Value → Act
  unsubscribes : Handle → Value → Act

module _ {W : Type 0} where
  -- The messages wait in the queue, to be sent at the end of a batch or when the client is connected.
  abbrev pub IsQueuing : Client W → Type 0
  IsQueuing s = (ltb 0 (pos_part s.batch) || s.internal_batch) ≡ true

  -- What a receiver of the queued messages makes of them is what `_hasSubscriptions` says.
  pub record Agrees (s : Client W) : Type 0 where
    pub queuing : IsQueuing s
    pub well_formed : IsWellFormed s.listeners
    pub agree : (c : String) → told c s.message_queue false ≡ has_subscriptions c s.listeners

module _ {W : Type 0} (host : Host W) (method_of : Argument → String → Option ℕ) where
  unfoldable pub act : Act → Client W → Client W
  unfolding subscribe unsubscribe
  act (subscribes channel scope callback props) s =
      (subscribe host method_of channel scope callback props s).0
  act (unsubscribes h props) s = (unsubscribe host h props s).0

  unfoldable pub act_all : List Act → Client W → Client W
  unfolding act
  act_all [] s = s
  act_all (a ∷ rest) s = act_all rest (act a s)

  queue_send-queued :
      (m : Object) (s : Client W)
      → IsQueuing s
      → queue_send host m s ≡ (record s { message_queue = s.message_queue ++ m ∷ [] }, ok tt)
  unfolding queue_send
  queue_send-queued m s h = rw h refl

  registered-Agrees :
      (channel : String) (d : Delegate) (props : Value) (s : Client W)
      → Agrees s
      → Agrees
          (announce host
            (not (has_subscriptions channel s.listeners))
            channel
            props
            (register_delegate channel true d s).0).0
  unfolding register_delegate announce
  registered-Agrees channel d props s a =
      let l = (Listeners.add_listener channel d true s.listeners).0 in
      let w = (add_listener-Adds channel d true s.listeners a.well_formed).3 in
      elim (Bool-cases (has_subscriptions channel s.listeners)) [
        | inl old ↦ rw old (record {
          queuing = a.queuing;
          well_formed = w;
          agree = λ j. ground (
            arith,
            eq_iff channel j,
            a.agree j,
            has_subscriptions-add_listener channel j d true s.listeners a.well_formed,
          );
        })
        | inr new ↦
            rw (new, queue_send-queued _ (record s { listeners = l }) a.queuing)
              (record {
                queuing = a.queuing;
                well_formed = w;
                agree = λ j.
                    told-push j s.message_queue _ false
                    ∙ tells-subscribe channel j props (told j s.message_queue false)
                    ∙ ap (λ b. if channel === j then true else b) (a.agree j)
                    ∙ sym
                        (has_subscriptions-add_listener channel j d true s.listeners a.well_formed);
              })
      ]

  unsubscribed-Agrees :
      (h : Handle) (props : Value) (s : Client W) → Agrees s → Agrees (unsubscribe host h props s).0
  unfolding unsubscribe remove_listener
  unsubscribed-Agrees h props s a =
      let l = Listeners.remove_listener h s.listeners in
      let w = remove_listener-IsWellFormed h s.listeners a.well_formed in
      elim (Bool-cases (has_subscriptions h.channel l)) [
        | inl more ↦ rw more (record {
          queuing = a.queuing;
          well_formed = w;
          agree = λ j. elim (Bool-cases (h.channel === j)) [
            | inl same ↦ ground (
              arith,
              eq_iff h.channel j,
              a.agree j,
              has_subscriptions-remove_listener h s.listeners a.well_formed more,
            )
            | inr other ↦
                a.agree j ∙ sym (has_subscriptions-remove_other h j s.listeners a.well_formed other)
          ];
        })
        | inr none_left ↦
            rw (none_left, queue_send-queued _ (record s { listeners = l }) a.queuing)
              (record {
                queuing = a.queuing;
                well_formed = w;
                agree = λ j.
                    told-push j s.message_queue _ false
                    ∙ tells-unsubscribe h.channel j props (told j s.message_queue false)
                    ∙ elim (Bool-cases (h.channel === j)) [
                      | inl same ↦ ground (arith, eq_iff h.channel j)
                      | inr other ↦ rw other (
                          a.agree j
                          ∙ sym
                              (has_subscriptions-remove_other h j s.listeners a.well_formed other))
                    ];
              })
      ]

  returning : (h : Handle) (r : Client W × Outcome (Unit {0})) → (resume (λ _. return h) r).0 ≡ r.0
  returning h (s, ok a) = refl
  returning h (s, thrown e) = refl
  returning h (s, unfinished) = refl

  resolved-Agrees :
      (r : Outcome Delegate) (channel : String) (props : Value) (s : Client W)
      → Agrees s
      → Agrees
          ((lift_outcome r >>= register_delegate channel true >>= λ h.
              announce host (not (has_subscriptions channel s.listeners)) channel props >> return h)
            s).0
  unfolding register_delegate
  resolved-Agrees (thrown e) channel props s a = a
  resolved-Agrees unfinished channel props s a = a
  resolved-Agrees (ok d) channel props s a =
      subst Agrees (sym (returning _ _)) (registered-Agrees channel d props s a)

  act-Agrees : (a : Act) (s : Client W) → Agrees s → Agrees (act a s)
  unfolding act subscribe
  act-Agrees (unsubscribes h props) s agrees = unsubscribed-Agrees h props s agrees
  act-Agrees (subscribes channel scope callback props) s agrees =
      resolved-Agrees (resolve_scoped_callback method_of scope callback) channel props s agrees

  -- While the messages wait in the queue, on well-formed listeners: a receiver of the queued messages
  -- has a subscription to a channel exactly when the channel has listeners, after any sequence of
  -- subscriptions and unsubscriptions, those that throw included, if it is so before.
  pub act_all-Agrees : (acts : List Act) (s : Client W) → Agrees s → Agrees (act_all acts s)
  unfolding act_all
  act_all-Agrees [] s agrees = agrees
  act_all-Agrees (a ∷ rest) s agrees = act_all-Agrees rest (act a s) (act-Agrees a s agrees)
