-- ===== src/Client/Chain.antt =====
-- media/js/cometd.js, `_applyIncomingExtensions` and `_applyOutgoingExtensions`: what extensions that
-- leave the client alone make of a message.
use vurs.Prelude.{
  ℕ, zero, suc, ◌+◌, ◌-◌, ◌<◌, ◌≤◌, Bool, true, false, Option, none, some, List, [], ◌∷◌, ◌++◌, ◌≡◌,
  refl, sym, ap, ◌∙◌, inl, inr, Bool-cases, arith, if◌then◌else◌, ltb, length, get_elem?,
  get_elem?-append_last, get_elem?-append_left, ◌⊎◌, Outcome, ok, thrown, unfinished, length-append,
}
use vurs.Value.{Value, Object}
use vurs.Client.State.{Client, Extension, Host, Callback, M, resume}
use vurs.Client.Extensions.{
  result_message, apply_extension, apply_from, in_order, in_turn, apply_incoming_extensions,
  apply_outgoing_extensions,
}

-- A function of an extension that leaves the client alone: the message as it leaves it, and its result.
abbrev pub Pure : Type 0
Pure = Object → Object × Outcome Value

abbrev pub lift : {W : Type 0} → Option Pure → Option (Callback W)
lift none = none
lift (some f) = some (λ m s. (s, (f m).0, (f m).1))

-- What one extension makes of a message: `none` drops it.
abbrev pub one : Option Pure → Object → Outcome (Option Object)
one none m = ok (some m)
one (some f) m = let (m', r) = f m in result_message m' r

abbrev pub after :
    Outcome (Option Object) → (Object → Outcome (Option Object)) → Outcome (Option Object)
after (ok none) k = ok none
after (ok (some m)) k = k m
after (thrown e) k = thrown e
after unfinished k = unfinished

-- The extensions one after the other, until one drops the message.
unfoldable pub through : (ℕ → Option Pure) → List Extension → Object → Outcome (Option Object)
through f [] m = ok (some m)
through f (e ∷ es) m = after (one (f e.extension) m) (through f es)

abbrev pub reversed : {A : Type 0} → List A → List A
reversed [] = []
reversed (x ∷ xs) = reversed xs ++ x ∷ []

abbrev pub dropped : {A : Type 0} → ℕ → List A → List A
dropped zero xs = xs
dropped (suc n) [] = []
dropped (suc n) (x ∷ xs) = dropped n xs

dropped-get_elem? :
    {A : Type 0} (i : ℕ) (xs : List A)
    → i < length xs
    → (x : A) × (get_elem? xs i ≡ some x) × (dropped i xs ≡ x ∷ dropped (suc i) xs)
dropped-get_elem? i [] h = absurd (elim h [ ])
dropped-get_elem? zero (x ∷ xs) h = (x, refl, refl)
dropped-get_elem? (suc i) (x ∷ xs) h = dropped-get_elem? i xs (omega arith)

dropped-length : {A : Type 0} (i : ℕ) (xs : List A) → length xs ≤ i → dropped i xs ≡ []
dropped-length zero [] h = refl
dropped-length zero (x ∷ xs) h = absurd (omega arith)
dropped-length (suc i) [] h = refl
dropped-length (suc i) (x ∷ xs) h = dropped-length i xs (omega arith)

length-reversed : {A : Type 0} (xs : List A) → length (reversed xs) ≡ length xs
length-reversed [] = refl
length-reversed (x ∷ xs) =
    let whole = length-append (reversed xs) (x ∷ []) in let rest = length-reversed xs in omega arith

get_elem?-reversed :
    {A : Type 0} (xs : List A) (i : ℕ)
    → i < length xs
    → get_elem? xs (length xs - 1 - i) ≡ get_elem? (reversed xs) i
get_elem?-reversed [] i h = absurd (elim h [ ])
get_elem?-reversed (x ∷ xs) i h =
    let long = length-reversed xs in
    let inside_or_last : (i < length xs) ⊎ (i ≡ length xs) = omega arith in
    elim inside_or_last [
      | inl inside ↦
          let back : suc (length xs) - 1 - i ≡ suc (length xs - 1 - i) = omega arith in
          ap (get_elem? (x ∷ xs)) back
          ∙ get_elem?-reversed xs i inside
          ∙ sym (get_elem?-append_left (reversed xs) x i (λ e. absurd (omega arith)))
      | inr last ↦
          let first : suc (length xs) - 1 - i ≡ 0 = omega arith in
          let at_end : i ≡ length (reversed xs) = omega arith in
          ap (get_elem? (x ∷ xs)) first
          ∙ sym (get_elem?-append_last (reversed xs) x)
          ∙ ap (get_elem? (reversed xs ++ x ∷ [])) (sym at_end)
    ]

module _ {W : Type 0} (pick : ℕ → List Extension → Option Extension) (f : ℕ → Option Pure)
    (g : ℕ → Option (Callback W)) (same : (e : ℕ) → g e ≡ lift (f e)) (s : Client W)
    (order : List Extension) (long : length order ≡ length s.extensions)
    (picks : (i : ℕ) → i < length order → pick i s.extensions ≡ get_elem? order i) where
  lift-result : (p : Option Pure) (m : Object) → apply_extension (lift p) m s ≡ (s, one p m)
  unfolding apply_extension
  lift-result none m = refl
  lift-result (some h) m = refl

  going_on :
      (k : Option Object → M W (Option Object)) (through_rest : Object → Outcome (Option Object))
      → ((m : Object) → k (some m) s ≡ (s, through_rest m))
      → k none s ≡ (s, ok none)
      → (r : Outcome (Option Object)) → resume k (s, r) ≡ (s, after r through_rest)
  going_on k through_rest more no_more (ok none) = no_more
  going_on k through_rest more no_more (ok (some m)) = more m
  going_on k through_rest more no_more (thrown e) = refl
  going_on k through_rest more no_more unfinished = refl

  apply_from-none : (rounds i : ℕ) → 0 < rounds → apply_from pick g rounds i none s ≡ (s, ok none)
  unfolding apply_from
  apply_from-none zero i h = absurd (omega arith)
  apply_from-none (suc rounds) i h = refl

  apply_from-through :
      (rounds i : ℕ) (m : Object)
      → i ≤ length order
      → length order < rounds + i
      → apply_from pick g rounds i (some m) s ≡ (s, through f (dropped i order) m)
  unfolding apply_from through
  apply_from-through zero i m h k = absurd (omega arith)
  apply_from-through (suc rounds) i m h k = elim (Bool-cases (ltb i (length s.extensions))) [
    | inr last ↦ rw (last, dropped-length i order (ground arith)) refl
    | inl more ↦
        let within : i < length order = ground arith in
        let (e, got, rest) = dropped-get_elem? i order within in
        rw (more, picks i within, got, rest, same e.extension, lift-result (f e.extension) m)
          (going_on (apply_from pick g rounds (suc i)) (through f (dropped (suc i) order))
            (λ m'. apply_from-through rounds (suc i) m' (omega arith) (omega arith))
            (apply_from-none rounds (suc i) (omega arith)) (one (f e.extension) m))
  ]

-- The order in which the extensions see an incoming message.
abbrev pub turns : Bool → List Extension → List Extension
turns reverse es = if reverse then reversed es else es

length-turns : (reverse : Bool) (es : List Extension) → length (turns reverse es) ≡ length es
length-turns true es = length-reversed es
length-turns false es = refl

in_turn-turns :
    (reverse : Bool) (es : List Extension) (i : ℕ)
    → i < length (turns reverse es)
    → in_turn reverse i es ≡ get_elem? (turns reverse es) i
unfolding in_turn
in_turn-turns true es i h = get_elem?-reversed es i (let long = length-reversed es in omega arith)
in_turn-turns false es i h = refl

-- Where the extensions leave the client alone and are fewer than the bound on the rounds: an outgoing
-- message goes through all of them in the order of their registration, and an incoming one in the
-- reverse order if the settings say so, each given what the one before returned, until one
-- drops it, and the client is as before.
pub applied-through :
    {W : Type 0} (host : Host W) (inward outward : ℕ → Option Pure)
    → ((e : ℕ) → host.incoming e ≡ lift (inward e))
    → ((e : ℕ) → host.outgoing e ≡ lift (outward e))
    → (m : Object) (s : Client W) → length s.extensions < host.rounds
    → (apply_incoming_extensions host m s
        ≡ (s, through inward (turns s.reverse_incoming_extensions s.extensions) m))
      × (apply_outgoing_extensions host m s ≡ (s, through outward s.extensions m))
unfolding apply_incoming_extensions apply_outgoing_extensions
applied-through host inward outward comes goes m s few =
    let order = turns s.reverse_incoming_extensions s.extensions in
    let long = length-turns s.reverse_incoming_extensions s.extensions in
    (
      apply_from-through (in_turn s.reverse_incoming_extensions) inward host.incoming comes s order
          long (in_turn-turns s.reverse_incoming_extensions s.extensions) host.rounds 0 m
          (omega arith) (omega arith),
      apply_from-through in_order outward host.outgoing goes s s.extensions refl (λ i h. refl)
          host.rounds 0 m (omega arith) (omega arith),
    )
