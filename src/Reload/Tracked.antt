-- ===== src/Reload/Tracked.antt =====
-- media/js/cometd/ReloadExtension.js: the subscriptions that are tracked.
use vurs.Prelude.{
  ◌≡◌, refl, ◌∙◌, ap, String, Bool, true, false, none, some, List, [], ◌∷◌, ◌===◌, ◌&&◌,
  if◌then◌else◌, ok, eq_iff, arith,
}
use vurs.Value.{Value, Object, bool, obj, str, get, put, unset, prop, truthy, is_str}
use vurs.Value.Objects.{get-put, get-unset}
use vurs.Reload.{
  Browser, Reload, subscriptions, key_of, track, incoming, outgoing, outgoing_subscribe, put_off,
  resubscribe, put_state,
}

-- Whether a message says that the client is now subscribed to a channel, or no longer is, and what was
-- the case before if it says neither.
unfoldable pub tells : String → Object → Bool → Bool
tells c m before =
    if truthy (get "successful" m) && key_of (get "subscription" m) === c
    then (if is_str "/meta/subscribe" (get "channel" m)
        then true
        else if is_str "/meta/unsubscribe" (get "channel" m)
        then false
        else before)
    else before

unfoldable pub told : String → List Object → Bool → Bool
unfolding tells
told c [] before = before
told c (m ∷ ms) before = told c ms (tells c m before)

subscriptions_after : Object → Object → Object
subscriptions_after m o =
    let channel = get "channel" m in
    let key = key_of (get "subscription" m) in
    if truthy (get "successful" m)
    then (if is_str "/meta/handshake" channel
        then o
        else if is_str "/meta/subscribe" channel
        then put key (bool true) o
        else if is_str "/meta/unsubscribe" channel
        then unset key o
        else o)
    else o

-- A value is at most one text.
is_str-other :
    (s t : String) (v : Value) → (s === t) ≡ false → is_str s v ≡ true → is_str t v ≡ false
is_str-other s t (str u) h e = ground (arith, eq_iff u s, eq_iff u t, eq_iff s t)
is_str-other s t _ h e = cc

subscriptions_after-tells :
    (c : String) (m o : Object)
    → truthy (get c (subscriptions_after m o)) ≡ tells c m (truthy (get c o))
unfolding subscriptions_after tells
subscriptions_after-tells c m o = ground (
  arith,
  get-put (key_of (get "subscription" m)) c (bool true) o,
  get-unset (key_of (get "subscription" m)) c o,
  is_str-other "/meta/handshake" "/meta/subscribe" (get "channel" m) refl,
  is_str-other "/meta/handshake" "/meta/unsubscribe" (get "channel" m) refl,
)

module _ {J : Type 0} where
  -- The messages that come in, an exception being caught by the client.
  unfoldable pub hear : List Object → Reload J → Reload J
  unfolding incoming
  hear [] r = r
  hear (m ∷ ms) r = hear ms (incoming m r).0

  -- Whether the state says that the client is subscribed.
  abbrev pub holds : String → Reload J → Bool
  holds c r = truthy (prop c (subscriptions r))

  abbrev pub IsOpen : Reload J → Type 0
  IsOpen r = (o : Object) × (subscriptions r ≡ obj o)

  subscriptions-put :
      (k : String) (v : Value) (r : Reload J)
      → subscriptions (put_state k v r) ≡ (if k === "subscriptions" then v else subscriptions r)
  subscriptions-put k v r = get-put k "subscriptions" v r.state

  incoming-subscriptions :
      (m : Object) (r : Reload J) (o : Object)
      → subscriptions r ≡ obj o
      → subscriptions (incoming m r).0 ≡ obj (subscriptions_after m o)
  unfolding incoming track subscriptions_after
  incoming-subscriptions m r o e = ground (
    arith,
    subscriptions-put "handshakeResponse" (obj m) r,
    subscriptions-put "subscriptions" (obj (put (key_of (get "subscription" m)) (bool true) o)) r,
    subscriptions-put "subscriptions" (obj (unset (key_of (get "subscription" m)) o)) r,
  )

  hear-told :
      (c : String) (ms : List Object) (r : Reload J) (o : Object)
      → subscriptions r ≡ obj o
      → (p : Object) × (subscriptions (hear ms r) ≡ obj p)
        × (truthy (get c p) ≡ told c ms (truthy (get c o)))
  unfolding hear told
  hear-told c [] r o e = (o, e, refl)
  hear-told c (m ∷ ms) r o e =
      let (p, found, same) =
        hear-told c ms (incoming m r).0 (subscriptions_after m o)
          (incoming-subscriptions m r o e) in
      (p, found, same ∙ ap (told c ms) (subscriptions_after-tells c m o))

  module _ (browser : Browser J) where
    -- While the tracked subscriptions are an object, and whatever messages come in, a subscription to a
    -- channel is held back, and its answer put off, if the last successful answer about the
    -- channel was to a subscription, or there was none and the channel was subscribed before;
    -- otherwise it goes out, and nothing is put off.
    pub outgoing-told :
        (url c : String) (m : Object) (ms : List Object) (r : Reload J) (o : Object)
        → subscriptions r ≡ obj o
        → get "channel" m ≡ str "/meta/subscribe"
        → get "subscription" m ≡ str c
        → outgoing browser url m (hear ms r) ≡ (
            if told c ms (truthy (get c o))
            then (put_off (resubscribe (str c)) (hear ms r), ok none)
            else (hear ms r, ok (some m)))
    unfolding outgoing outgoing_subscribe
    outgoing-told url c m ms r o e channel subscription =
        let (p, found, same) = hear-told c ms r o e in rw (channel, subscription, found, same) refl
