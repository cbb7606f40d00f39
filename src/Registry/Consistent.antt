-- ===== src/Registry/Consistent.antt =====
-- media/js/cometd.js, org.cometd.TransportRegistry: the array of types and the map of transports
-- agree, and what `add` and `remove` do to them.
use vurs.Prelude.{
  ℕ, zero, suc, String, Bool, true, false, Option, none, some, List, [], ◌∷◌, ◌++◌, ◌===◌, ◌≡◌,
  refl, inl, inr, arith, if◌then◌else◌, insert_at, Bool-cases, eq_iff,
}
use vurs.Prelude.Dict
use vurs.Registry.{Registry, contains, remove_type, empty, place, add, remove}

abbrev is_some {ℓ} : {A : Type ℓ} → Option A → Bool
is_some none = false
is_some (some x) = true

-- No type is listed twice.
abbrev pub Distinct : List String → Type 0
Distinct [] = Unit {0}
Distinct (t ∷ ts) = (contains t ts ≡ false) × Distinct ts

-- A type is in the array exactly when the map has a transport for it.
pub record IsConsistent {ℓ} {T : Type ℓ} (r : Registry T) : Type ℓ where
  pub distinct : Distinct r.types
  pub agree : (t : String) → contains t r.types ≡ is_some (Dict.lookup t r.transports)

contains-insert_at :
    (t u : String) (i : ℕ) (ts : List String)
    → contains t (insert_at i u ts) ≡ (if u === t then true else contains t ts)
unfolding contains
contains-insert_at t u zero [] = refl
contains-insert_at t u (suc i) [] = refl
contains-insert_at t u zero (s ∷ ts) = refl
contains-insert_at t u (suc i) (s ∷ ts) = ground (arith, contains-insert_at t u i ts)

contains-push :
    (t u : String) (ts : List String)
    → contains t (ts ++ u ∷ []) ≡ (if u === t then true else contains t ts)
unfolding contains
contains-push t u [] = refl
contains-push t u (s ∷ ts) = ground (arith, contains-push t u ts)

pub contains-place :
    (t u : String) (index : Option ℕ) (ts : List String)
    → contains t (place index u ts) ≡ (if u === t then true else contains t ts)
unfolding place
contains-place t u none ts = contains-push t u ts
contains-place t u (some i) ts = contains-insert_at t u i ts

insert_at-Distinct :
    (u : String) (i : ℕ) (ts : List String)
    → contains u ts ≡ false
    → Distinct ts
    → Distinct (insert_at i u ts)
unfolding contains
insert_at-Distinct u zero [] h d = (refl, tt)
insert_at-Distinct u (suc i) [] h d = (refl, tt)
insert_at-Distinct u zero (s ∷ ts) h d = (h, d)
insert_at-Distinct u (suc i) (s ∷ ts) h d =
    ground (arith, contains-insert_at s u i ts, insert_at-Distinct u i ts, eq_iff s u, eq_iff u s)

push-Distinct :
    (u : String) (ts : List String) → contains u ts ≡ false → Distinct ts → Distinct (ts ++ u ∷ [])
unfolding contains
push-Distinct u [] h d = (refl, tt)
push-Distinct u (s ∷ ts) h d =
    ground (arith, contains-push s u ts, push-Distinct u ts, eq_iff s u, eq_iff u s)

pub place-Distinct :
    (index : Option ℕ) (u : String) (ts : List String)
    → contains u ts ≡ false
    → Distinct ts
    → Distinct (place index u ts)
unfolding place
place-Distinct none u ts h d = push-Distinct u ts h d
place-Distinct (some i) u ts h d = insert_at-Distinct u i ts h d

contains-remove_type :
    (t u : String) (ts : List String)
    → Distinct ts
    → contains t (remove_type u ts) ≡ (if u === t then false else contains t ts)
unfolding contains remove_type
contains-remove_type t u [] d = ground arith
contains-remove_type t u (s ∷ ts) d =
    ground (arith, contains-remove_type t u ts d.1, eq_iff s u, eq_iff u t, eq_iff s t)

pub remove_type-Distinct :
    (u : String) (ts : List String) → Distinct ts → Distinct (remove_type u ts)
unfolding contains remove_type
remove_type-Distinct u [] d = tt
remove_type-Distinct u (s ∷ ts) d =
    ground (arith, contains-remove_type s u ts d.1, remove_type-Distinct u ts d.1, eq_iff s u)

module _ {ℓ} {T : Type ℓ} where
  pub empty-IsConsistent : IsConsistent (empty {T = T})
  unfolding empty contains Dict.lookup
  empty-IsConsistent = record { distinct = tt; agree = λ t. refl }

  -- On a consistent registry, in which the types are distinct and are those with a transport, `add`
  -- leaves it consistent, for a new type and a taken one, at every index and without one.
  pub add-IsConsistent :
      (t : String) (x : T) (index : Option ℕ) (r : Registry T)
      → IsConsistent r
      → IsConsistent (add t x index r).0
  unfolding add
  add-IsConsistent t x index r c = elim (Bool-cases (contains t r.types)) [
    | inl old ↦ rw old c
    | inr new ↦ rw new (record {
      distinct = place-Distinct index t r.types new c.distinct;
      agree = λ u. ground (
        arith,
        contains-place u t index r.types,
        Dict.lookup-insert t u x r.transports,
        c.agree u,
      );
    })
  ]

  -- On a consistent registry `remove` leaves it consistent, for a known type and an unknown one.
  pub remove-IsConsistent :
      (t : String) (r : Registry T) → IsConsistent r → IsConsistent (remove t r).0
  unfolding remove
  remove-IsConsistent t r c = elim (Bool-cases (contains t r.types)) [
    | inl old ↦ rw old (record {
      distinct = remove_type-Distinct t r.types c.distinct;
      agree = λ u. ground (
        arith,
        contains-remove_type u t r.types c.distinct,
        Dict.lookup-delete t u r.transports,
        c.agree u,
      );
    })
    | inr new ↦ rw new c
  ]
