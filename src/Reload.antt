-- ===== src/Reload.antt =====
-- media/js/cometd/ReloadExtension.js: a connection that outlives its page, in a cookie.
pub mod Hooked
pub mod Restored
pub mod Resumed
pub mod Withheld
pub mod Tracked
use vurs.Prelude.{
  ℕ, suc, String, Bool, true, false, Option, none, some, List, [], ◌∷◌, ◌++◌, ◌===◌, ◌&&◌,
  if◌then◌else◌, Outcome, ok, thrown, type_error,
}
use vurs.Value.{
  Value, Object, null, undefined, bool, str, obj, end, field, get, put, unset, prop, truthy, is_str,
  is_absent,
}

-- What a binding supplies: `COOKIE.get` and `COOKIE.set` on the cookies of the browser, with an empty
-- text for a cookie that is not there and an age in seconds, and the JSON functions.
pub record Browser (J : Type 0) : Type 0 where
  pub cookie : String → J → String
  pub set_cookie : String → String → ℕ → J → J
  pub to_json : Object → String
  pub from_json : String → Outcome Value

-- What is put off by `setTimeout`: to restore an old state, and to answer a subscription.
pub data Replay : Type 0 where
  restore : Object → Replay
  resubscribe : Value → Replay

pub record Reload (J : Type 0) : Type 0 where
  pub state : Object
  pub cookie_max_age : ℕ
  pub jar : J
  pub pending : List Replay

-- `configuration && configuration.cookieMaxAge || 5`
unfoldable pub age_or_default : Option ℕ → ℕ
age_or_default (some (suc n)) = suc n
age_or_default _ = 5

abbrev pub cookie_name : String
cookie_name = "org.cometd.reload"

abbrev pub is_null : Value → Bool
is_null null = true
is_null _ = false

-- A property's name: one that is no text counts as undefined.
abbrev pub key_of : Value → String
key_of (str s) = s
key_of _ = "undefined"

-- `v[k] = w` and `delete v[k]`, on a value that is neither undefined nor null.
abbrev pub set_prop : String → Value → Value → Value
set_prop k w (obj o) = obj (put k w o)
set_prop k w v = v

abbrev pub unset_prop : String → Value → Value
unset_prop k (obj o) = obj (unset k o)
unset_prop k v = v

abbrev pub subscribed_message : Value → Object
subscribed_message subscription =
    field "channel" (str "/meta/subscribe")
      (field "subscription" subscription (field "successful" (bool true) end))

module _ {J : Type 0} where
  unfoldable pub new : Option ℕ → J → Reload J
  unfolding age_or_default
  new max_age jar = record {
    state = end;
    cookie_max_age = age_or_default max_age;
    jar = jar;
    pending = [];
  }

  abbrev pub subscriptions : Reload J → Value
  subscriptions r = get "subscriptions" r.state

  abbrev pub put_state : String → Value → Reload J → Reload J
  put_state k v r = record r { state = put k v r.state }

  -- The start of the handshake's case of `outgoing`.
  unfoldable pub begin_state : String → Reload J → Reload J
  begin_state url r = record r {
    state = put "subscriptions" (obj end) (put "url" (str url) r.state);
  }

  abbrev pub put_off : Replay → Reload J → Reload J
  put_off task r = record r { pending = r.pending ++ task ∷ [] }

  -- The old state is looked at with `oldState && oldState.handshakeResponse && _similarState(oldState)`:
  -- what is no object, and a text that is no JSON, restore nothing.
  unfoldable pub restore_from :
      String → Object → Outcome Value → Reload J → Reload J × Outcome (Option Object)
  restore_from url m (ok (obj old)) r =
      if truthy (get "handshakeResponse" old) && is_str url (get "url" old)
      then (put_off (restore old) r, ok none)
      else (r, ok (some m))
  restore_from url m _ r = (r, ok (some m))

  unfoldable pub outgoing_subscribe : Object → Reload J → Reload J × Outcome (Option Object)
  outgoing_subscribe m r =
      if is_absent (subscriptions r)
      then (r, thrown type_error)
      else if truthy (prop (key_of (get "subscription" m)) (subscriptions r))
      then (put_off (resubscribe (get "subscription" m)) r, ok none)
      else (r, ok (some m))

  -- `_state.subscriptions[…] = …` and `delete _state.subscriptions[…]`
  unfoldable pub track : (Value → Value) → Object → Reload J → Reload J × Outcome Object
  track change m r =
      if is_absent (subscriptions r)
      then (r, thrown type_error)
      else (put_state "subscriptions" (change (subscriptions r)) r, ok m)

  unfoldable pub incoming : Object → Reload J → Reload J × Outcome Object
  unfolding track
  incoming m r =
      let channel = get "channel" m in
      let key = key_of (get "subscription" m) in
      if truthy (get "successful" m)
      then (if is_str "/meta/handshake" channel
          then (put_state "handshakeResponse" (obj m) r, ok m)
          else if is_str "/meta/subscribe" channel
          then track (set_prop key (bool true)) m r
          else if is_str "/meta/unsubscribe" channel
          then track (unset_prop key) m r
          else (r, ok m))
      else (r, ok m)

  -- What a function given to `setTimeout` does, and the message that it hands to the client's `receive`.
  unfoldable pub run_replay : Replay → Reload J → Reload J × Value
  run_replay (restore old) r = (
    put_state "subscriptions" (get "subscriptions" old)
        (put_state "handshakeResponse" (get "handshakeResponse" old) r),
    get "handshakeResponse" old,
  )
  run_replay (resubscribe subscription) r = (r, obj (subscribed_message subscription))

  module _ (browser : Browser J) where
    -- `_reload`
    unfoldable pub reload : Reload J → Reload J
    reload r = if is_null (get "handshakeResponse" r.state) then r else record r {
      jar = browser.set_cookie cookie_name (browser.to_json r.state) r.cookie_max_age r.jar;
      state = end;
    }

    unfoldable pub outgoing_handshake :
        String → Object → Reload J → Reload J × Outcome (Option Object)
    unfolding begin_state restore_from
    outgoing_handshake url m r =
        let t = begin_state url r in
        let saved = browser.cookie cookie_name t.jar in
        if saved === ""
        then (t, ok (some m))
        else restore_from url m (browser.from_json saved)
            (record t { jar = browser.set_cookie cookie_name "" 0 t.jar })

    -- The message that goes on, if any. `url` is the client's.
    unfoldable pub outgoing : String → Object → Reload J → Reload J × Outcome (Option Object)
    unfolding outgoing_handshake outgoing_subscribe
    outgoing url m r =
        let channel = get "channel" m in
        if is_str "/meta/handshake" channel
        then outgoing_handshake url m r
        else if is_str "/meta/subscribe" channel
        then outgoing_subscribe m r
        else if is_str "/meta/disconnect" channel
        then (record r { state = end }, ok (some m))
        else (r, ok (some m))
