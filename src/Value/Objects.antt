-- ===== src/Value/Objects.antt =====
-- What reading, writing and copying properties do to an object.
use vurs.Prelude.{
  String, Bool, true, false, List, [], ◌∷◌, ◌≡◌, refl, ap, arith, ◌===◌, if◌then◌else◌, eq_iff,
  eq_refl,
}
use vurs.Value.{
  Value, Object, end, field, obj, undefined, get, put, unset, is_undefined, mixin_object, mixin,
  strings, of_strings,
}

pub get-put :
    (k j : String) (v : Value) (o : Object) → get j (put k v o) ≡ (if k === j then v else get j o)
unfolding get put
get-put k j v end = refl
get-put k j v (field i w o) = ground (arith, eq_iff k j, eq_iff i k, eq_iff i j, get-put k j v o)

pub get-put_self : (k : String) (v : Value) (o : Object) → get k (put k v o) ≡ v
get-put_self k v o = simp (get-put, eq_refl)

pub get-unset :
    (k j : String) (o : Object) → get j (unset k o) ≡ (if k === j then undefined else get j o)
unfolding get unset
get-unset k j end = ground arith
get-unset k j (field i w o) = ground (arith, eq_iff k j, eq_iff i k, eq_iff i j, get-unset k j o)

abbrev pub has_key : String → Object → Bool
has_key k end = false
has_key k (field j v o) = if j === k then true else has_key k o

-- No property is listed twice, as in every object of a program.
abbrev pub Distinct : Object → Type 0
Distinct end = Unit {0}
Distinct (field k v o) = (has_key k o ≡ false) × Distinct o

pub get_missing : (k : String) (o : Object) → has_key k o ≡ false → get k o ≡ undefined
unfolding get
get_missing k end h = refl
get_missing k (field j v o) h = ground (arith, get_missing k o)

pub get-mixin_object :
    (k : String) (target o : Object)
    → Distinct o
    → get k (mixin_object target o) ≡ (if is_undefined (get k o) then get k target else get k o)
unfolding mixin_object get
get-mixin_object k target end d = refl
get-mixin_object k target (field j v o) d = ground (
  arith,
  get-mixin_object k (if is_undefined v then target else put j v target) o d.1,
  get-put j k v target,
  get_missing k o,
  eq_iff j k,
)

-- A message made by `_mixin(false, {}, props, required)` from two objects that list no property
-- twice: each property that the second object defines has the value given there, whatever the caller
-- passes, and every other property has the caller's value.
pub get-mixin :
    (k : String) (props required : Object)
    → Distinct props
    → Distinct required
    → get k (mixin end (obj props ∷ obj required ∷ []))
      ≡ (if is_undefined (get k required) then get k props else get k required)
unfolding mixin get
get-mixin k props required dp dr = ground (
  arith,
  get-mixin_object k end props dp,
  get-mixin_object k (mixin_object end props) required dr,
)

pub strings-of_strings : (ss : List String) → strings (of_strings ss) ≡ ss
unfolding strings of_strings
strings-of_strings [] = refl
strings-of_strings (s ∷ ss) = ap (◌∷◌ s) (strings-of_strings ss)
