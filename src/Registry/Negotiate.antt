-- ===== src/Registry/Negotiate.antt =====
-- media/js/cometd.js, org.cometd.TransportRegistry: which transports are found and which one is
-- agreed upon, on a consistent registry.
use vurs.Prelude.{
  String, Bool, true, false, Option, none, some, List, [], ◌∷◌, ◌++◌, ◌≡◌, refl, ap, ◌∙◌, ◌⊎◌, inl,
  inr, ◌&&◌, arith, if◌then◌else◌, Bool-cases, Option-cases, eq_iff, eq_refl, ok, Outcome,
}
use vurs.Prelude.Dict
use vurs.Registry.{
  Registry, contains, find_among, find_transport_types, negotiate_among, negotiate_transport,
}
use vurs.Registry.Consistent.{IsConsistent}

module _ {ℓ} {T : Type ℓ} (accept : T → Bool) where
  -- Whether the map has an accepting transport under the type.
  abbrev pub accepted : List (String × T) → String → Bool
  accepted d t = elim (Dict.lookup t d) [ none ↦ false | some x ↦ accept x ]

  -- The types of an array that the map accepts, in the array's order.
  abbrev pub select : List (String × T) → List String → List String
  select d [] = []
  select d (t ∷ ts) = if accepted d t then t ∷ select d ts else select d ts

  abbrev pub Known : List (String × T) → List String → Type ℓ
  Known d [] = Unit
  Known d (t ∷ ts) = ((x : T) × (Dict.lookup t d ≡ some x)) × Known d ts

  find_among-select :
      (d : List (String × T)) (ts : List String)
      → Known d ts
      → find_among accept d ts ≡ ok (select d ts)
  unfolding find_among
  find_among-select d [] k = refl
  find_among-select d (t ∷ ts) k = ground (arith, find_among-select d ts k.1)

  contains-select :
      (d : List (String × T)) (u : String) (ts : List String)
      → contains u (select d ts) ≡ (contains u ts && accepted d u)
  unfolding contains
  contains-select d u [] = refl
  contains-select d u (t ∷ ts) = ground (arith, contains-select d u ts, eq_iff t u)

  -- Whether the type is offered by the other side and has an accepting transport here.
  abbrev pub usable : List (String × T) → List String → String → Bool
  usable d offered t = contains t offered && accepted d t

  abbrev pub NoneUsable : List (String × T) → List String → List String → Type 0
  NoneUsable d offered [] = Unit {0}
  NoneUsable d offered (t ∷ ts) = (usable d offered t ≡ false) × NoneUsable d offered ts

  -- The types before the chosen one, the chosen one with its transport, and the types after it.
  pub record Choice (d : List (String × T)) (offered ts : List String)
      (r : Outcome (Option (String × T))) : Type ℓ where
    pub before : List String
    pub chosen : String
    pub transport : T
    pub after : List String
    pub order : ts ≡ before ++ chosen ∷ after
    pub skipped : NoneUsable d offered before
    pub is_offered : contains chosen offered ≡ true
    pub found : Dict.lookup chosen d ≡ some transport
    pub accepting : accept transport ≡ true
    pub result : r ≡ ok (some (chosen, transport))

  abbrev pub FirstUsable :
      List (String × T) → List String → List String → Outcome (Option (String × T)) → Type ℓ
  FirstUsable d offered ts r = (NoneUsable d offered ts × (r ≡ ok none)) ⊎ Choice d offered ts r

  skip :
      (d : List (String × T)) (offered : List String) (t : String) (ts : List String)
      (r r' : Outcome (Option (String × T)))
      → usable d offered t ≡ false
      → r' ≡ r
      → FirstUsable d offered ts r
      → FirstUsable d offered (t ∷ ts) r'
  skip d offered t ts r r' h same (inl (u, e)) = inl ((h, u), same ∙ e)
  skip d offered t ts r r' h same (inr c) = inr (record {
    before = t ∷ c.before;
    chosen = c.chosen;
    transport = c.transport;
    after = c.after;
    order = ap (◌∷◌ t) c.order;
    skipped = (h, c.skipped);
    is_offered = c.is_offered;
    found = c.found;
    accepting = c.accepting;
    result = same ∙ c.result;
  })

  negotiate_among-FirstUsable :
      (d : List (String × T)) (offered ts : List String)
      → Known d ts
      → FirstUsable d offered ts (negotiate_among accept d ts offered)
  unfolding negotiate_among
  negotiate_among-FirstUsable d offered [] k = inl (tt, refl)
  negotiate_among-FirstUsable d offered (t ∷ ts) ((x, e), k) =
      let rest = negotiate_among-FirstUsable d offered ts k in
      elim (Bool-cases (usable d offered t)) [
        | inr no_use ↦ skip d offered t ts _ _ no_use (ground arith) rest
        | inl use_it ↦ inr (record {
          before = [];
          chosen = t;
          transport = x;
          after = ts;
          order = refl;
          skipped = tt;
          is_offered = ground arith;
          found = e;
          accepting = ground arith;
          result = ground arith;
        })
      ]

  Known-of_agree :
      (d : List (String × T)) (whole ts : List String)
      → ((t : String) → contains t whole ≡ true → (x : T) × (Dict.lookup t d ≡ some x))
      → ((t : String) → contains t ts ≡ true → contains t whole ≡ true)
      → Known d ts
  unfolding contains
  Known-of_agree d whole [] h sub = tt
  Known-of_agree d whole (t ∷ ts) h sub =
      (h t (sub t (rw (eq_refl t))), Known-of_agree d whole ts h (λ u m. sub u (ground arith)))

module _ {ℓ} {T : Type ℓ} (accept : T → Bool) (r : Registry T) (c : IsConsistent r) where
  pub known : Known accept r.transports r.types
  known = Known-of_agree accept r.transports r.types r.types here (λ t m. m)
    where
      here :
          (t : String) → contains t r.types ≡ true → (x : T) × (Dict.lookup t r.transports ≡ some x)
      here t m = elim (Option-cases (Dict.lookup t r.transports)) [
        | inl e ↦ absurd (ground (arith, c.agree t))
        | inr (x, e) ↦ (x, e)
      ]

  -- On a consistent registry `findTransportTypes` never fails, and returns the accepting types in
  -- the order of priority.
  pub find_transport_types_lem :
      find_transport_types accept r ≡ ok (select accept r.transports r.types)
  unfolding find_transport_types
  find_transport_types_lem = find_among-select accept r.transports r.types known

  -- On a consistent registry `negotiateTransport` never fails. It returns null when no type is
  -- both offered and accepting, and otherwise the first such type with its transport: every type of
  -- a higher priority is not offered or does not accept.
  pub negotiate_transport_lem :
      (offered : List String)
      → FirstUsable accept r.transports offered r.types (negotiate_transport accept offered r)
  unfolding negotiate_transport
  negotiate_transport_lem offered =
      negotiate_among-FirstUsable accept r.transports offered r.types known
