-- ===== src/Value.antt =====
-- The JavaScript values that a Bayeux message is made of, with the property accesses, the tests and
-- the copying of properties (`_mixin`) that media/js/cometd.js performs on them. A number is an
-- integer, and objects are compared and copied by value.
pub mod Objects
pub mod Copies
use vurs.Prelude.{ℕ, zero, suc, String, Bool, true, false, not, List, [], ◌∷◌, ◌===◌, if◌then◌else◌}
use vurs.Prelude.Int.{ℤ, pos, negsuc}

mutual
  pub data Value : Type 0 where
    undefined : Value
    null : Value
    bool : Bool → Value
    num : ℤ → Value
    str : String → Value
    arr : Items → Value
    obj : Object → Value

  pub data Items : Type 0 where
    nil : Items
    item : Value → Items → Items

  -- The own properties of an object, in order of insertion.
  pub data Object : Type 0 where
    end : Object
    field : String → Value → Object → Object

abbrev pub is_undefined : Value → Bool
is_undefined undefined = true
is_undefined _ = false

-- `v === undefined || v === null`
abbrev pub is_absent : Value → Bool
is_absent undefined = true
is_absent null = true
is_absent _ = false

-- Whether a value passes an `if`.
abbrev pub truthy : Value → Bool
truthy undefined = false
truthy null = false
truthy (bool b) = b
truthy (num (pos zero)) = false
truthy (num (pos (suc n))) = true
truthy (num (negsuc n)) = true
truthy (str s) = not (s === "")
truthy (arr xs) = true
truthy (obj o) = true

-- `v == s` for a string `s`.
abbrev pub is_str : String → Value → Bool
is_str s (str t) = t === s
is_str s _ = false

-- `o[k]`
unfoldable pub get : String → Object → Value
get k end = undefined
get k (field j v o) = if j === k then v else get k o

-- `o[k] = v`
unfoldable pub put : String → Value → Object → Object
put k v end = field k v end
put k v (field j w o) = if j === k then field k v o else field j w (put k v o)

-- `v[k]` on a value that is neither undefined nor null.
abbrev pub prop : String → Value → Value
prop k (obj o) = get k o
prop k _ = undefined

-- `delete o[k]`
unfoldable pub unset : String → Object → Object
unset k end = end
unset k (field j v o) = let rest = unset k o in if j === k then rest else field j v rest

-- The body of the `for (var propName in object)` loop of `_mixin(false, target, object)`.
unfoldable pub mixin_object : Object → Object → Object
unfolding put
mixin_object target end = target
mixin_object target (field k v o) =
    mixin_object (if is_undefined v then target else put k v target) o

unfoldable pub mixin_value : Object → Value → Object
unfolding mixin_object
mixin_value target (obj o) = mixin_object target o
mixin_value target _ = target

-- `_mixin(false, target, objects…)`: every call of the client is a shallow one. What is no object has
-- no property to copy.
unfoldable pub mixin : Object → List Value → Object
unfolding mixin_value
mixin target [] = target
mixin target (v ∷ vs) = mixin (mixin_value target v) vs

-- An array whose last place is undefined is shorter, as one is that nothing was assigned to there.
unfoldable pub put_item : Value → Items → Items
put_item undefined nil = nil
put_item v xs = item v xs

-- The same loop with `deep`: `_mixin(true, target, object)`, and what it assigns for a property, an
-- object and an array being copied into a new one.
unfoldable mutual
  unfolding put put_item

  pub deep_value : Value → Value
  deep_value (obj o) = obj (deep_object end o)
  deep_value (arr xs) = arr (deep_items xs)
  deep_value v = v

  pub deep_object : Object → Object → Object
  deep_object target end = target
  deep_object target (field k v o) =
      deep_object (if is_undefined v then target else put k (deep_value v) target) o

  pub deep_items : Items → Items
  deep_items nil = nil
  deep_items (item v xs) = put_item (deep_value v) (deep_items xs)

unfoldable pub deep_mixin : Object → List Object → Object
unfolding deep_object
deep_mixin target [] = target
deep_mixin target (o ∷ os) = deep_mixin (deep_object target o) os

-- The strings of an array of types that a server sends.
unfoldable pub strings : Items → List String
strings nil = []
strings (item (str s) xs) = s ∷ strings xs
strings (item _ xs) = strings xs

unfoldable pub of_strings : List String → Items
of_strings [] = nil
of_strings (s ∷ ss) = item (str s) (of_strings ss)
