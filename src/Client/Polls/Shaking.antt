-- ===== src/Client/Polls/Shaking.antt =====
-- media/js/cometd.js: a handshake whose message the extensions hold back.
use vurs.Prelude.{
  ℕ, suc, String, Bool, true, Option, none, some, List, [], ◌∷◌, ◌≡◌, refl, ◌∙◌, inl, inr, ok,
  false,
}
use vurs.Prelude.Int.{pos}
use vurs.Value.{Object, null, str, obj, end, get, mixin, num}
use vurs.Value.Objects.{Distinct, get-mixin, get-put}
use vurs.Registry.{Registry, negotiate_transport}
use vurs.Registry.Consistent.{IsConsistent}
use vurs.Registry.Negotiate.{
  Known, known, select, find_transport_types_lem, negotiate_transport_lem,
}
use vurs.Listeners.{clear_subscriptions}
use vurs.Client.State.{Client, handshaking, Host}
use vurs.Client.Sending.{send, prepare, stamp, stamped, deliver}
use vurs.Client.Extensions.{apply_outgoing_extensions}
use vurs.Client.Connection.{
  version, accepts_now, chosen, handshake_message, reset_each, reset_transports, forget_session,
  hold_messages, begin_handshaking, negotiate_and_send, handshake,
}
use vurs.Client.Api.{start_handshake, forget_handshake}

-- Transports whose `reset` returns, and leaves what `log` sees of the world alone.
pub record IsCalm {W L : Type 0} (host : Host W) (log : W → L) : Type 0 where
  pub returns : (t : ℕ) (w : W) → (host.reset t w).1 ≡ ok tt
  pub same_log : (t : ℕ) (w : W) → log (host.reset t w).0 ≡ log w

-- The client once its handshake has gone to the extensions.
abbrev pub shaken : {W : Type 0} → Object → Option ℕ → W → Client W → Client W
shaken props t w s = record s {
  client_id = null;
  listeners = clear_subscriptions s.listeners;
  batch = pos 0;
  internal_batch = true;
  handshake_props = obj props;
  transport = t;
  status = handshaking;
  reestablish = false;
  message_id = suc s.message_id;
  world = w;
}

-- Whatever is agreed upon, the choice of a transport returns.
negotiated-ok :
    {T : Type 0} (accept : T → Bool) (r : Registry T) (c : IsConsistent r) (offered : List String)
    → (o : Option (String × T)) × (negotiate_transport accept offered r ≡ ok o)
negotiated-ok accept r c offered = elim (negotiate_transport_lem accept r c offered) [
  | inl (none_usable, e) ↦ (none, e)
  | inr choice ↦ (some (choice.chosen, choice.transport), choice.result)
]

handshake_channel :
    (props : Object) (types : List String)
    → Distinct props
    → get "channel" (mixin end (obj props ∷ obj (handshake_message types) ∷ []))
      ≡ str "/meta/handshake"
unfolding get
handshake_channel props types d =
    get-mixin "channel" props (handshake_message types) d (refl, (refl, (refl, (refl, tt))))

module _ {W L : Type 0} (host : Host W) (log : W → L) (calm : IsCalm host log) where
  reset_each-calm :
      (ts : List String) (d : List (String × ℕ)) (s : Client W)
      → Known (λ t. true) d ts
      → (w : W) × (reset_each host ts d s ≡ (record s { world = w }, ok tt)) × (log w ≡ log s.world)
  unfolding reset_each
  reset_each-calm [] d s k = (s.world, refl, refl)
  reset_each-calm (t ∷ ts) d s ((x, found), k) =
      let u = record s { world = (host.reset x s.world).0 } in
      let (w, same, kept) = reset_each-calm ts d u k in
      (w, rw (found, calm.returns x s.world) same, kept ∙ calm.same_log x s.world)

  module _ (after : W → W) (props : Object) (distinct : Distinct props) (s : Client W)
      (consistent : IsConsistent s.transports)
      (held : (m : Object) (u : Client W)
        → get "channel" m ≡ str "/meta/handshake"
        → u.extensions ≡ s.extensions
        → u.settings ≡ s.settings
        → log u.world ≡ log s.world
        → apply_outgoing_extensions host m u ≡ (record u { world = after u.world }, ok none)) where
    send-held :
        (m : Object) (u : Client W)
        → get "channel" m ≡ str "/meta/handshake"
        → u.client_id ≡ null
        → u.extensions ≡ s.extensions
        → u.settings ≡ s.settings
        → log u.world ≡ log s.world
        → send host (m ∷ []) false (some "handshake") u
          ≡ (record u { message_id = suc u.message_id; world = after u.world }, ok tt)
    unfolding send prepare stamp deliver
    send-held m u channel unknown extensions settings kept =
        let v = record u { message_id = suc u.message_id } in
        let named : get "channel" (stamped u m) ≡ str "/meta/handshake" =
          rw unknown (get-put "id" "channel" (num (pos (suc u.message_id))) m ∙ channel) in
        rw (held (stamped u m) v named extensions settings kept) refl

    -- A handshake that the page calls, whose message the extensions hold back, sends nothing.
    pub handshake-held :
        (w : W) × (t : Option ℕ) × (start_handshake host (obj props) s
          ≡ (shaken props t (after w) s, ok tt))
        × (log w ≡ log s.world)
    unfolding start_handshake forget_handshake handshake forget_session reset_transports
        hold_messages negotiate_and_send begin_handshaking
    handshake-held =
        let u = forget_session (forget_handshake s) in
        let accept : ℕ → Bool = λ t. true in
        let (w, reset, kept) =
          reset_each-calm s.transports.types s.transports.transports u
            (known accept s.transports consistent) in
        let v = hold_messages (obj props) (record u { world = w }) in
        let accepts = accepts_now host (str version) v in
        let types = select accepts s.transports.transports s.transports.types in
        let (o, agreed) = negotiated-ok accepts s.transports consistent types in
        let m = mixin end (obj props ∷ obj (handshake_message types) ∷ []) in
        (
          w,
          chosen o,
          rw (reset, find_transport_types_lem accepts s.transports consistent, agreed)
              (send-held m (begin_handshaking (chosen o) v) (handshake_channel props types distinct)
                refl refl refl kept),
          kept,
        )
