-- ===== src/Registry/Priorities.antt =====
-- media/js/cometd.js, org.cometd.TransportRegistry: lists of types with their transports, in order of
-- priority.
use vurs.Prelude.{
  ℕ, zero, suc, String, Bool, false, Option, none, some, List, [], ◌∷◌, ◌++◌, ◌===◌, ◌&&◌, ◌≡◌,
  refl, ap, arith, if◌then◌else◌, insert_at, map, eq_iff,
}
use vurs.Prelude.Dict
use vurs.Registry.{contains, remove_type, place}
use vurs.Registry.Consistent.{Distinct}

abbrev pub Priorities : Type 0 → Type 0
Priorities T = List (String × T)

module _ {T : Type 0} where
  abbrev pub keys : Priorities T → List String
  keys ps = map (λ p. p.0) ps

  unfoldable pub put_at : Option ℕ → String × T → Priorities T → Priorities T
  put_at none p ps = ps ++ p ∷ []
  put_at (some i) p ps = insert_at i p ps

  unfoldable pub drop_key : String → Priorities T → Priorities T
  drop_key t [] = []
  drop_key t ((s, x) ∷ ps) = if s === t then ps else (s, x) ∷ drop_key t ps

  unfoldable pub accepting : (T → Bool) → Priorities T → List String
  accepting accept [] = []
  accepting accept ((t, x) ∷ ps) = if accept x then t ∷ accepting accept ps else accepting accept ps

  unfoldable pub first_usable : (T → Bool) → List String → Priorities T → Option (String × T)
  first_usable accept offered [] = none
  first_usable accept offered ((t, x) ∷ ps) =
      if contains t offered && accept x then some (t, x) else first_usable accept offered ps

  keys-insert_at :
      (i : ℕ) (p : String × T) (ps : Priorities T)
      → keys (insert_at i p ps) ≡ insert_at i p.0 (keys ps)
  keys-insert_at zero p [] = refl
  keys-insert_at (suc i) p [] = refl
  keys-insert_at zero p (q ∷ ps) = refl
  keys-insert_at (suc i) p (q ∷ ps) = ap (◌∷◌ q.0) (keys-insert_at i p ps)

  keys-push : (p : String × T) (ps : Priorities T) → keys (ps ++ p ∷ []) ≡ keys ps ++ p.0 ∷ []
  keys-push p [] = refl
  keys-push p (q ∷ ps) = ap (◌∷◌ q.0) (keys-push p ps)

  pub keys-put_at :
      (index : Option ℕ) (p : String × T) (ps : Priorities T)
      → keys (put_at index p ps) ≡ place index p.0 (keys ps)
  unfolding put_at place
  keys-put_at none p ps = keys-push p ps
  keys-put_at (some i) p ps = keys-insert_at i p ps

  pub keys-drop_key :
      (t : String) (ps : Priorities T) → keys (drop_key t ps) ≡ remove_type t (keys ps)
  unfolding drop_key remove_type
  keys-drop_key t [] = refl
  keys-drop_key t ((s, x) ∷ ps) = ground (arith, keys-drop_key t ps)

  lookup-insert_at :
      (u t : String) (x : T) (i : ℕ) (ps : Priorities T)
      → contains t (keys ps) ≡ false
      → Dict.lookup u (insert_at i (t, x) ps) ≡ (if t === u then some x else Dict.lookup u ps)
  unfolding Dict.lookup contains
  lookup-insert_at u t x zero [] h = refl
  lookup-insert_at u t x (suc i) [] h = refl
  lookup-insert_at u t x zero ((s, y) ∷ ps) h = refl
  lookup-insert_at u t x (suc i) ((s, y) ∷ ps) h =
      ground (arith, lookup-insert_at u t x i ps, eq_iff s t, eq_iff s u, eq_iff t u)

  lookup-push :
      (u t : String) (x : T) (ps : Priorities T)
      → contains t (keys ps) ≡ false
      → Dict.lookup u (ps ++ (t, x) ∷ []) ≡ (if t === u then some x else Dict.lookup u ps)
  unfolding Dict.lookup contains
  lookup-push u t x [] h = refl
  lookup-push u t x ((s, y) ∷ ps) h =
      ground (arith, lookup-push u t x ps, eq_iff s t, eq_iff s u, eq_iff t u)

  pub lookup-put_at :
      (u t : String) (x : T) (index : Option ℕ) (ps : Priorities T)
      → contains t (keys ps) ≡ false
      → Dict.lookup u (put_at index (t, x) ps) ≡ (if t === u then some x else Dict.lookup u ps)
  unfolding put_at
  lookup-put_at u t x none ps h = lookup-push u t x ps h
  lookup-put_at u t x (some i) ps h = lookup-insert_at u t x i ps h

  pub lookup-absent :
      (t : String) (ps : Priorities T) → contains t (keys ps) ≡ false → Dict.lookup t ps ≡ none
  unfolding Dict.lookup contains
  lookup-absent t [] h = refl
  lookup-absent t ((s, x) ∷ ps) h = ground (arith, lookup-absent t ps)

  pub lookup-drop_key :
      (u t : String) (ps : Priorities T)
      → Distinct (keys ps)
      → Dict.lookup u (drop_key t ps) ≡ (if t === u then none else Dict.lookup u ps)
  unfolding Dict.lookup drop_key
  lookup-drop_key u t [] d = ground arith
  lookup-drop_key u t ((s, x) ∷ ps) d =
      ground
        (arith, lookup-drop_key u t ps d.1, lookup-absent s ps, eq_iff s t, eq_iff s u, eq_iff t u)

  pub drop_key-absent :
      (t : String) (ps : Priorities T) → contains t (keys ps) ≡ false → drop_key t ps ≡ ps
  unfolding contains drop_key
  drop_key-absent t [] h = refl
  drop_key-absent t ((s, x) ∷ ps) h = ground (arith, drop_key-absent t ps)
