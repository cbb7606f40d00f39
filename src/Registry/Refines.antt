-- ===== src/Registry/Refines.antt =====
-- media/js/cometd.js, org.cometd.TransportRegistry: an array and a map stand for one list of types
-- with their transports, in order of priority.
use vurs.Prelude.{
  ℕ, String, Bool, true, false, Option, some, List, [], ◌∷◌, ◌≡◌, refl, sym, ap, ◌∙◌, inl, inr,
  arith, if◌then◌else◌, Bool-cases, eq_iff, eq_refl, Outcome, ok,
}
use vurs.Prelude.Dict
use vurs.Registry.{
  Registry, contains, place, remove_type, empty, add, remove, find_among, find_transport_types,
  negotiate_among, negotiate_transport,
}
use vurs.Registry.Consistent.{Distinct, place-Distinct, remove_type-Distinct}
use vurs.Registry.Priorities.{
  Priorities, keys, put_at, drop_key, accepting, first_usable, keys-put_at, keys-drop_key,
  lookup-put_at, lookup-absent, lookup-drop_key, drop_key-absent,
}

-- What is asked of a registry. `finds` and `negotiates` carry the transports' `accept` as it is then.
pub data Op (T : Type 0) : Type 0 where
  adds : String → T → Option ℕ → Op T
  removes : String → Op T
  finds : (T → Bool) → Op T
  negotiates : (T → Bool) → List String → Op T

pub data Result (T : Type 0) : Type 0 where
  added : Bool → Result T
  removed : Option T → Result T
  found : Outcome (List String) → Result T
  chosen : Outcome (Option (String × T)) → Result T

module _ {T : Type 0} where
  unfoldable pub perform : Op T → Registry T → Registry T × Result T
  unfolding add remove find_transport_types negotiate_transport
  perform (adds t x index) r = let (s, new) = add t x index r in (s, added new)
  perform (removes t) r = let (s, x) = remove t r in (s, removed x)
  perform (finds accept) r = (r, found (find_transport_types accept r))
  perform (negotiates accept offered) r = (r, chosen (negotiate_transport accept offered r))

  unfoldable pub run : List (Op T) → Registry T → List (Result T)
  unfolding perform
  run [] r = []
  run (o ∷ os) r = let (s, result) = perform o r in result ∷ run os s

  -- What is asked of the list that a registry stands for.
  unfoldable pub ask : Op T → Priorities T → Priorities T × Result T
  unfolding put_at drop_key accepting first_usable
  ask (adds t x index) ps =
      if contains t (keys ps) then (ps, added false) else (put_at index (t, x) ps, added true)
  ask (removes t) ps = (drop_key t ps, removed (Dict.lookup t ps))
  ask (finds accept) ps = (ps, found (ok (accepting accept ps)))
  ask (negotiates accept offered) ps = (ps, chosen (ok (first_usable accept offered ps)))

  unfoldable pub ask_all : List (Op T) → Priorities T → List (Result T)
  unfolding ask
  ask_all [] ps = []
  ask_all (o ∷ os) ps = let (qs, result) = ask o ps in result ∷ ask_all os qs

  record Refines (r : Registry T) (ps : Priorities T) : Type 0 where
    types : r.types ≡ keys ps
    distinct : Distinct (keys ps)
    same : (t : String) → Dict.lookup t r.transports ≡ Dict.lookup t ps

  -- Each transport of the list is the map's for its type.
  abbrev Lists : List (String × T) → Priorities T → Type 0
  Lists d [] = Unit {0}
  Lists d ((t, x) ∷ ps) = (Dict.lookup t d ≡ some x) × Lists d ps

  find_among-accepting :
      (accept : T → Bool) (d ps : Priorities T)
      → Lists d ps
      → find_among accept d (keys ps) ≡ ok (accepting accept ps)
  unfolding find_among accepting
  find_among-accepting accept d [] h = refl
  find_among-accepting accept d ((t, x) ∷ ps) h =
      rw (h.0, find_among-accepting accept d ps h.1) (ground arith)

  negotiate_among-first_usable :
      (accept : T → Bool) (offered : List String) (d ps : Priorities T)
      → Lists d ps
      → negotiate_among accept d (keys ps) offered ≡ ok (first_usable accept offered ps)
  unfolding negotiate_among first_usable
  negotiate_among-first_usable accept offered d [] h = refl
  negotiate_among-first_usable accept offered d ((t, x) ∷ ps) h =
      rw (h.0, negotiate_among-first_usable accept offered d ps h.1) (ground arith)

  Lists-of_Distinct :
      (d ps : Priorities T)
      → Distinct (keys ps)
      → ((t : String) → contains t (keys ps) ≡ true → Dict.lookup t d ≡ Dict.lookup t ps)
      → Lists d ps
  unfolding contains Dict.lookup
  Lists-of_Distinct d [] distinct same = tt
  Lists-of_Distinct d ((s, x) ∷ ps) distinct same = (
    same s (rw (eq_refl s) refl) ∙ rw (eq_refl s) refl,
    Lists-of_Distinct d ps distinct.1 (λ t h. ground (arith, same t, eq_iff s t)),
  )

  Refines-Lists : (r : Registry T) (ps : Priorities T) → Refines r ps → Lists r.transports ps
  Refines-Lists r ps c = Lists-of_Distinct r.transports ps c.distinct (λ t h. c.same t)

  listed :
      (r : Registry T) (ps : Priorities T)
      → Refines r ps
      → (t : String) → contains t r.types ≡ contains t (keys ps)
  listed r ps c t = ap (contains t) c.types

  add-Refines :
      (t : String) (x : T) (index : Option ℕ) (r : Registry T) (ps : Priorities T)
      → Refines r ps
      → Refines (perform (adds t x index) r).0 (ask (adds t x index) ps).0
        × ((perform (adds t x index) r).1 ≡ (ask (adds t x index) ps).1)
  unfolding perform ask add
  add-Refines t x index r ps c = elim (Bool-cases (contains t (keys ps))) [
    | inl old ↦ rw (listed r ps c t, old) (c, refl)
    | inr new ↦
        rw (listed r ps c t, new)
          (
            record {
              types = ap (place index t) c.types ∙ sym (keys-put_at index (t, x) ps);
              distinct =
                  rw (keys-put_at index (t, x) ps)
                    (place-Distinct index t (keys ps) new c.distinct);
              same = λ u. ground (
                arith,
                Dict.lookup-insert t u x r.transports,
                lookup-put_at u t x index ps new,
                c.same u,
              );
            },
            refl,
          )
  ]

  remove-Refines :
      (t : String) (r : Registry T) (ps : Priorities T)
      → Refines r ps
      → Refines (perform (removes t) r).0 (ask (removes t) ps).0
        × ((perform (removes t) r).1 ≡ (ask (removes t) ps).1)
  unfolding perform ask remove
  remove-Refines t r ps c = elim (Bool-cases (contains t (keys ps))) [
    | inl old ↦
        rw (listed r ps c t, old)
          (
            record {
              types = ap (remove_type t) c.types ∙ sym (keys-drop_key t ps);
              distinct = rw (keys-drop_key t ps) (remove_type-Distinct t (keys ps) c.distinct);
              same = λ u. ground (
                arith,
                Dict.lookup-delete t u r.transports,
                lookup-drop_key u t ps c.distinct,
                c.same u,
              );
            },
            ap removed (c.same t),
          )
    | inr new ↦
        rw (listed r ps c t, new, drop_key-absent t ps new, lookup-absent t ps new) (c, refl)
  ]

  perform-Refines :
      (o : Op T) (r : Registry T) (ps : Priorities T)
      → Refines r ps
      → Refines (perform o r).0 (ask o ps).0 × ((perform o r).1 ≡ (ask o ps).1)
  unfolding perform ask find_transport_types negotiate_transport
  perform-Refines (adds t x index) r ps c = add-Refines t x index r ps c
  perform-Refines (removes t) r ps c = remove-Refines t r ps c
  perform-Refines (finds accept) r ps c = (
    c,
    rw c.types (ap found (find_among-accepting accept r.transports ps (Refines-Lists r ps c))),
  )
  perform-Refines (negotiates accept offered) r ps c = (
    c,
    rw c.types (
        ap chosen
          (negotiate_among-first_usable accept offered r.transports ps (Refines-Lists r ps c))),
  )

  run-Refines :
      (os : List (Op T)) (r : Registry T) (ps : Priorities T)
      → Refines r ps
      → run os r ≡ ask_all os ps
  unfolding run ask_all
  run-Refines [] r ps c = refl
  run-Refines (o ∷ os) r ps c =
      let (d, same) = perform-Refines o r ps c in
      rw (same, run-Refines os (perform o r).0 (ask o ps).0 d) refl

  empty-Refines : Refines empty []
  unfolding empty Dict.lookup
  empty-Refines = record { types = refl; distinct = tt; same = λ t. refl }

  -- Whatever is asked of a registry, in whatever order, it answers as a list of types with their
  -- transports would: additions at an index or at the end, removals, the accepting types and the
  -- transport agreed upon.
  pub run-ask_all : (os : List (Op T)) → run os empty ≡ ask_all os []
  run-ask_all os = run-Refines os empty [] empty-Refines
