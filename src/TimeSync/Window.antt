-- ===== src/TimeSync/Window.antt =====
-- media/js/cometd/TimeSyncExtension.js: the samples that are kept.
use vurs.Prelude.{
  ℕ, suc, ◌+◌, ◌≤◌, ◌≡◌, refl, sym, ap, ◌∙◌, Bool-cases, inl, inr, true, false, Option, List, [],
  ◌∷◌, ◌++◌, map, if◌then◌else◌, length, length-append, ltb, leb, arith,
}
use mathlib.Core.List.{append_assoc, append-nil, map-append}
use vurs.TimeSync.{
  TimeSync, Number, new, samples_or_default, average, shift_if, lag_sample, offset_sample, observe,
}

-- The last elements of a list, at most the given number of them.
abbrev pub latest {ℓ} : {A : Type ℓ} → ℕ → List A → List A
latest max [] = []
latest max (x ∷ xs) = if leb (length (x ∷ xs)) max then x ∷ xs else latest max xs

latest-short : {A : Type 0} (max : ℕ) (xs : List A) → length xs ≤ max → latest max xs ≡ xs
latest-short max [] h = refl
latest-short max (x ∷ xs) h = ground arith

latest-push :
    {A : Type 0} (max : ℕ) (xs : List A) (x : A)
    → shift_if (ltb max (length (latest max xs ++ x ∷ []))) (latest max xs ++ x ∷ [])
      ≡ latest max (xs ++ x ∷ [])
latest-push max [] x = ground arith
latest-push max (y ∷ ys) x =
    let longer = length-append ys (x ∷ []) in
    elim (Bool-cases (leb (suc (length ys)) max)) [
      | inr long ↦
          let still : leb (suc (length (ys ++ x ∷ []))) max ≡ false = ground arith in
          rw (long, still) (latest-push max ys x)
      | inl short ↦ elim (Bool-cases (leb (suc (length (ys ++ x ∷ []))) max)) [
        | inl fits ↦
            let room : ltb max (suc (length (ys ++ x ∷ []))) ≡ false = ground arith in
            rw (short, fits, room) refl
        | inr over ↦
            let full : ltb max (suc (length (ys ++ x ∷ []))) ≡ true = ground arith in
            rw (short, over, full) (sym (latest-short max (ys ++ x ∷ []) (ground arith)))
      ]
    ]

-- What a message with time stamps is observed as.
pub record Stamps : Type 0 where
  pub now : Number
  pub tc : Number
  pub p : Number
  pub ts : Number

abbrev pub lag_of : Stamps → Number
lag_of e = lag_sample e.now e.tc e.p

abbrev pub offset_of : Stamps → Number
offset_of e = offset_sample e.now e.tc e.p e.ts

unfoldable pub observe_all : List Stamps → TimeSync → TimeSync
observe_all [] s = s
observe_all (e ∷ es) s = observe_all es (observe e.now e.tc e.p e.ts s)

-- The samples that are kept of a history.
pub record Holds (history : List Stamps) (s : TimeSync) : Type 0 where
  pub lags : s.lags ≡ latest s.max_samples (map lag_of history)
  pub offsets : s.offsets ≡ latest s.max_samples (map offset_of history)

length-map : {A B : Type 0} (f : A → B) (xs : List A) → length (map f xs) ≡ length xs
length-map f [] = refl
length-map f (x ∷ xs) = ap suc (length-map f xs)

length-latest :
    {A B : Type 0} (f g : A → B) (max : ℕ) (xs : List A)
    → length (latest max (map f xs)) ≡ length (latest max (map g xs))
length-latest f g max [] = refl
length-latest f g max (x ∷ xs) =
    let same : length (map f xs) ≡ length (map g xs) = length-map f xs ∙ sym (length-map g xs) in
    elim (Bool-cases (leb (suc (length (map g xs))) max)) [
      | inl short ↦ rw (same, short) (ap suc same)
      | inr long ↦ rw (same, long) (length-latest f g max xs)
    ]

observe-Holds :
    (history : List Stamps) (e : Stamps) (s : TimeSync)
    → Holds history s
    → Holds (history ++ e ∷ []) (observe e.now e.tc e.p e.ts s)
unfolding observe
observe-Holds history e s h =
    let max = s.max_samples in
    let one_more : length (s.offsets ++ offset_of e ∷ [])
        ≡ length (latest max (map lag_of history) ++ lag_of e ∷ []) =
      rw h.offsets (
        length-append (latest max (map offset_of history)) (offset_of e ∷ [])
        ∙ ap (λ n. n + 1) (length-latest offset_of lag_of max history)
        ∙ sym (length-append (latest max (map lag_of history)) (lag_of e ∷ []))) in
    record {
      lags =
          rw (one_more, h.lags, map-append lag_of history)
            (latest-push max (map lag_of history) (lag_of e));
      offsets =
          rw (h.offsets, map-append offset_of history)
            (latest-push max (map offset_of history) (offset_of e));
    }

observe_all-Holds :
    (es history : List Stamps) (s : TimeSync)
    → Holds history s
    → Holds (history ++ es) (observe_all es s)
unfolding observe_all
observe_all-Holds [] history s h = rw (append-nil history) h
observe_all-Holds (e ∷ es) history s h =
    rw (← append_assoc history (e ∷ []) es)
      (observe_all-Holds es (history ++ e ∷ []) _ (observe-Holds history e s h))

observe_all-max_samples :
    (es : List Stamps) (s : TimeSync) → (observe_all es s).max_samples ≡ s.max_samples
unfolding observe_all observe
observe_all-max_samples [] s = refl
observe_all-max_samples (e ∷ es) s = observe_all-max_samples es _

-- The averages are those of the samples kept.
observe_all-current :
    (es : List Stamps) (e : Stamps) (s : TimeSync)
    → let u = observe_all (es ++ e ∷ []) s in
      (u.lag ≡ average u.lags) × (u.offset ≡ average u.offsets)
unfolding observe_all observe
observe_all-current [] e s = (refl, refl)
observe_all-current (d ∷ es) e s = observe_all-current es e _

-- After any number of answers with time stamps, numbers or not, the lag and the offset are the rounded
-- averages of the samples of the last answers, as many as the settings say and no more.
pub observe-averages :
    (max : Option ℕ) (es : List Stamps) (e : Stamps)
    → let s = observe_all (es ++ e ∷ []) (new max) in
      (s.lag ≡ average (latest (samples_or_default max) (map lag_of (es ++ e ∷ []))))
      × (s.offset ≡ average (latest (samples_or_default max) (map offset_of (es ++ e ∷ []))))
unfolding new
observe-averages max es e =
    let h =
      observe_all-Holds (es ++ e ∷ []) [] (new max) (record { lags = refl; offsets = refl }) in
    let same = observe_all-max_samples (es ++ e ∷ []) (new max) in
    let current = observe_all-current es e (new max) in
    (
      current.0 ∙ ap average (h.lags ∙ ap (λ n. latest n (map lag_of (es ++ e ∷ []))) same),
      current.1 ∙ ap average (h.offsets ∙ ap (λ n. latest n (map offset_of (es ++ e ∷ []))) same),
    )
