-- ===== src/Value/Copies.antt =====
-- media/js/cometd.js, `_mixin`: what a deep copy holds.
use vurs.Prelude.{
  ℕ, zero, suc, String, List, [], ◌∷◌, ◌≡◌, refl, ap, arith, ◌===◌, if◌then◌else◌, eq_iff, ◌∙◌,
  Bool-cases, inl, inr,
}
use vurs.Value.{
  Value, Items, Object, undefined, null, bool, num, str, arr, obj, nil, item, end, field, get, put,
  prop, is_undefined, put_item, deep_value, deep_object, deep_items, deep_mixin,
}
use vurs.Value.Objects.{Distinct, get-put, get_missing}

-- `xs[i]`
abbrev pub at : ℕ → Items → Value
at i nil = undefined
at zero (item v xs) = v
at (suc i) (item v xs) = at i xs

abbrev pub at_value : ℕ → Value → Value
at_value i (arr xs) = at i xs
at_value i _ = undefined

-- A step from a value to one that it holds.
pub data Access : Type 0 where
  key : String → Access
  index : ℕ → Access

-- What is found along a path, undefined where it leads nowhere.
unfoldable pub read : List Access → Value → Value
unfolding get
read [] v = v
read (key k ∷ p) v = read p (prop k v)
read (index i ∷ p) v = read p (at_value i v)

-- No object in a value lists a property twice.
abbrev mutual
  pub AllDistinct : Value → Type 0
  AllDistinct (obj o) = Distinct o × FieldsDistinct o
  AllDistinct (arr xs) = ItemsDistinct xs
  AllDistinct _ = Unit {0}

  pub FieldsDistinct : Object → Type 0
  FieldsDistinct end = Unit {0}
  FieldsDistinct (field k v o) = AllDistinct v × FieldsDistinct o

  pub ItemsDistinct : Items → Type 0
  ItemsDistinct nil = Unit {0}
  ItemsDistinct (item v xs) = AllDistinct v × ItemsDistinct xs

get-deep_object :
    (k : String) (target o : Object)
    → Distinct o
    → get k (deep_object target o)
      ≡ (if is_undefined (get k o) then get k target else deep_value (get k o))
unfolding deep_object get
get-deep_object k target end d = refl
get-deep_object k target (field j v o) d = ground (
  arith,
  get-deep_object k (if is_undefined v then target else put j (deep_value v) target) o d.1,
  get-put j k (deep_value v) target,
  get_missing k o,
  eq_iff j k,
)

at-put_item : (i : ℕ) (v : Value) (xs : Items) → at i (put_item v xs) ≡ at i (item v xs)
unfolding put_item
at-put_item zero undefined nil = refl
at-put_item (suc i) undefined nil = refl
at-put_item i undefined (item x xs) = refl
at-put_item i null xs = refl
at-put_item i (bool b) xs = refl
at-put_item i (num n) xs = refl
at-put_item i (str s) xs = refl
at-put_item i (arr ys) xs = refl
at-put_item i (obj o) xs = refl

at-deep_items : (i : ℕ) (xs : Items) → at i (deep_items xs) ≡ deep_value (at i xs)
unfolding deep_items
at-deep_items i nil = refl
at-deep_items zero (item v xs) = at-put_item zero (deep_value v) (deep_items xs)
at-deep_items (suc i) (item v xs) =
    at-put_item (suc i) (deep_value v) (deep_items xs) ∙ at-deep_items i xs

defined_or : (v : Value) → (if is_undefined v then undefined else deep_value v) ≡ deep_value v
unfolding deep_value
defined_or undefined = refl
defined_or null = refl
defined_or (bool b) = refl
defined_or (num n) = refl
defined_or (str s) = refl
defined_or (arr xs) = refl
defined_or (obj o) = refl

prop-deep_value :
    (k : String) (v : Value) → AllDistinct v → prop k (deep_value v) ≡ deep_value (prop k v)
unfolding deep_value get
prop-deep_value k undefined d = refl
prop-deep_value k null d = refl
prop-deep_value k (bool b) d = refl
prop-deep_value k (num n) d = refl
prop-deep_value k (str s) d = refl
prop-deep_value k (arr xs) d = refl
prop-deep_value k (obj o) d = get-deep_object k end o d.0 ∙ defined_or (get k o)

at_value-deep_value : (i : ℕ) (v : Value) → at_value i (deep_value v) ≡ deep_value (at_value i v)
unfolding deep_value
at_value-deep_value i undefined = refl
at_value-deep_value i null = refl
at_value-deep_value i (bool b) = refl
at_value-deep_value i (num n) = refl
at_value-deep_value i (str s) = refl
at_value-deep_value i (arr xs) = at-deep_items i xs
at_value-deep_value i (obj o) = refl

get-AllDistinct : (k : String) (o : Object) → FieldsDistinct o → AllDistinct (get k o)
unfolding get
get-AllDistinct k end d = tt
get-AllDistinct k (field j v o) d = elim (Bool-cases (j === k)) [
  | inl same ↦ rw same d.0
  | inr other ↦ rw other (get-AllDistinct k o d.1)
]

at-AllDistinct : (i : ℕ) (xs : Items) → ItemsDistinct xs → AllDistinct (at i xs)
at-AllDistinct i nil d = tt
at-AllDistinct zero (item v xs) d = d.0
at-AllDistinct (suc i) (item v xs) d = at-AllDistinct i xs d.1

prop-AllDistinct : (k : String) (v : Value) → AllDistinct v → AllDistinct (prop k v)
prop-AllDistinct k undefined d = tt
prop-AllDistinct k null d = tt
prop-AllDistinct k (bool b) d = tt
prop-AllDistinct k (num n) d = tt
prop-AllDistinct k (str s) d = tt
prop-AllDistinct k (arr xs) d = tt
prop-AllDistinct k (obj o) d = get-AllDistinct k o d.1

at_value-AllDistinct : (i : ℕ) (v : Value) → AllDistinct v → AllDistinct (at_value i v)
at_value-AllDistinct i undefined d = tt
at_value-AllDistinct i null d = tt
at_value-AllDistinct i (bool b) d = tt
at_value-AllDistinct i (num n) d = tt
at_value-AllDistinct i (str s) d = tt
at_value-AllDistinct i (arr xs) d = at-AllDistinct i xs d
at_value-AllDistinct i (obj o) d = tt

read-deep_value :
    (p : List Access) (v : Value) → AllDistinct v → read p (deep_value v) ≡ deep_value (read p v)
unfolding read
read-deep_value [] v d = refl
read-deep_value (key k ∷ p) v d =
    ap (read p) (prop-deep_value k v d) ∙ read-deep_value p (prop k v) (prop-AllDistinct k v d)
read-deep_value (index i ∷ p) v d =
    ap (read p) (at_value-deep_value i v)
    ∙ read-deep_value p (at_value i v) (at_value-AllDistinct i v d)

-- What a value is without what it holds: an object, an array, or the value itself.
abbrev pub shape : Value → Value
shape (obj o) = obj end
shape (arr xs) = arr nil
shape v = v

shape-deep_value : (v : Value) → shape (deep_value v) ≡ shape v
unfolding deep_value
shape-deep_value undefined = refl
shape-deep_value null = refl
shape-deep_value (bool b) = refl
shape-deep_value (num n) = refl
shape-deep_value (str s) = refl
shape-deep_value (arr xs) = refl
shape-deep_value (obj o) = refl

-- The value of a property that `_mixin` takes from two objects.
abbrev pub chosen : String → Object → Object → Value
chosen k props required = if is_undefined (get k required) then get k props else get k required

get-deep_mixin :
    (k : String) (props required : Object)
    → Distinct props
    → Distinct required
    → get k (deep_mixin end (props ∷ required ∷ [])) ≡ deep_value (chosen k props required)
unfolding deep_mixin get
get-deep_mixin k props required dp dr = ground (
  arith,
  get-deep_object k end props dp,
  get-deep_object k (deep_object end props) required dr,
  defined_or (get k props),
)

chosen-AllDistinct :
    (k : String) (props required : Object)
    → FieldsDistinct props
    → FieldsDistinct required
    → AllDistinct (chosen k props required)
chosen-AllDistinct k props required dp dr = elim (Bool-cases (is_undefined (get k required))) [
  | inl missing ↦ rw missing (get-AllDistinct k props dp)
  | inr given ↦ rw given (get-AllDistinct k required dr)
]

-- In the result of `_mixin(true, {}, props, required)`, no object in the two listing a property twice:
-- whatever path of properties and indices is followed, there is the same value at its end, or an object or
-- array where there is one, as at the end of the same path in `required`, if its first property is
-- defined there, and in `props` if not. So an object that both have is that of `required`.
pub read-deep_mixin :
    (k : String) (path : List Access) (props required : Object)
    → AllDistinct (obj props)
    → AllDistinct (obj required)
    → shape (read (key k ∷ path) (obj (deep_mixin end (props ∷ required ∷ []))))
      ≡ shape (read path (chosen k props required))
unfolding read
read-deep_mixin k path props required dp dr =
    ap (λ v. shape (read path v)) (get-deep_mixin k props required dp.0 dr.0)
    ∙ ap shape (read-deep_value path _ (chosen-AllDistinct k props required dp.1 dr.1))
    ∙ shape-deep_value _
