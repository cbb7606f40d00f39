-- ===== src/Client/Announced/Told.antt =====
-- media/js/cometd.js, `subscribe` and `unsubscribe`: what a receiver of their messages is told.
use vurs.Prelude.{
  String, Bool, true, false, List, [], ◌∷◌, ◌++◌, ◌===◌, ◌≡◌, refl, ◌∙◌, if◌then◌else◌,
}
use vurs.Value.{Value, Object, end, get, is_str, is_undefined, mixin, mixin_value}
use vurs.Value.Objects.{Distinct, get-mixin_object}
use vurs.Client.Api.{with_props, subscribe_message, unsubscribe_message}

-- Whether a message leaves its receiver with a subscription to the channel, given whether it had one.
pub tells : String → Object → Bool → Bool
tells c m before =
    if is_str c (get "subscription" m)
    then (if is_str "/meta/subscribe" (get "channel" m)
        then true
        else if is_str "/meta/unsubscribe" (get "channel" m)
        then false
        else before)
    else before

-- The same for a list of messages, the first one first, to a receiver that had none.
unfoldable pub told : String → List Object → Bool → Bool
unfolding tells
told c [] before = before
told c (m ∷ ms) before = told c ms (tells c m before)

pub told-push :
    (c : String) (ms : List Object) (m : Object) (before : Bool)
    → told c (ms ++ m ∷ []) before ≡ tells c m (told c ms before)
unfolding told
told-push c [] m before = refl
told-push c (n ∷ ms) m before = told-push c ms m (tells c n before)

-- What the caller's properties leave of the required ones.
get-with_props :
    (k : String) (props : Value) (required : Object)
    → Distinct required
    → is_undefined (get k required) ≡ false
    → get k (with_props props required) ≡ get k required
unfolding mixin mixin_value
get-with_props k props required d h =
    get-mixin_object k (mixin_value end props) required d ∙ rw h refl

tells-with_props :
    (j : String) (props : Value) (required : Object) (before : Bool)
    → Distinct required
    → is_undefined (get "subscription" required) ≡ false
    → is_undefined (get "channel" required) ≡ false
    → tells j (with_props props required) before ≡ tells j required before
unfolding tells
tells-with_props j props required before d h k =
    rw
      (
        get-with_props "subscription" props required d h,
        get-with_props "channel" props required d k,
      )
      refl

pub tells-subscribe :
    (c j : String) (props : Value) (before : Bool)
    → tells j (with_props props (subscribe_message c)) before ≡ (if c === j then true else before)
unfolding tells get
tells-subscribe c j props before =
    tells-with_props j props (subscribe_message c) before (refl, (refl, tt)) refl refl

pub tells-unsubscribe :
    (c j : String) (props : Value) (before : Bool)
    → tells j (with_props props (unsubscribe_message c)) before
      ≡ (if c === j then false else before)
unfolding tells get
tells-unsubscribe c j props before =
    tells-with_props j props (unsubscribe_message c) before (refl, (refl, tt)) refl refl
