-- ===== src/Tests/Values.antt =====
-- media/js/cometd.js, `_mixin`: deep copies at fixed inputs.
use vurs.Prelude.{[], ◌∷◌, ◌≡◌, refl}
use vurs.Value.{
  Object, undefined, null, str, arr, obj, nil, item, end, field, get, deep_items, deep_mixin,
}
use vurs.Value.Copies.{key, index, read, shape, read-deep_mixin}

abbrev props : Object
props = field "ext" (obj (field "names" (arr (item (str "a") (item (str "b") nil))) end)) end

read-deep_mixin_example :
    shape (
      read
        (key "ext" ∷ key "names" ∷ index 1 ∷ [])
        (obj (deep_mixin end (props ∷ field "id" (str "1") end ∷ []))))
    ≡ str "b"
unfolding get read
read-deep_mixin_example =
    read-deep_mixin "ext" (key "names" ∷ index 1 ∷ []) props (field "id" (str "1") end)
      ((refl, tt), (((refl, tt), ((tt, (tt, tt)), tt)), tt)) ((refl, tt), (tt, tt))

-- A hole in an array is kept and an undefined end is not.
shorter_test :
    deep_items (item undefined (item null (item undefined nil))) ≡ item undefined (item null nil)
unfolding deep_items
shorter_test = refl
