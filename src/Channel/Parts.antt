-- ===== src/Channel/Parts.antt =====
-- media/js/cometd.js, `_notifyListeners`: a channel and its parts between slashes.
use vurs.Prelude.{
  ℕ, zero, suc, ◌<◌, String, Char, code, Bool-cases, inl, inr, true, false, List, [], ◌∷◌, ◌++◌,
  ◌≡◌, refl, sym, subst, ap, ◌∙◌, ◌==◌, length, take, arith,
}
use vurs.Channel.{put_first, split, join}
use Prim.Native.String.{◌++◌ as ◌<>◌}
use Prim.Native.String.append
use text.Mathlib.TextLemmas.{append_assoc}
use text.Mathlib.TextEquality.{Char-path}

-- A text without a slash.
abbrev pub IsSegment : String → Type 0
IsSegment String.[] = Unit {0}
IsSegment (String.◌∷◌ c s) = ((code c == b'/') ≡ false) × IsSegment s

abbrev pub EverySegment : List String → Type 0
EverySegment [] = Unit {0}
EverySegment (p ∷ ps) = IsSegment p × EverySegment ps

abbrev pub drop : ℕ → List String → List String
drop zero ps = ps
drop (suc n) [] = []
drop (suc n) (p ∷ ps) = drop n ps

pub split-cons : (s : String) → (p : String) × (ps : List String) × (split s ≡ p ∷ ps)
unfolding split
split-cons String.[] = ("", [], refl)
split-cons (String.◌∷◌ c s) = elim (Bool-cases (code c == b'/')) [
  | inl slash ↦ ("", split s, rw slash refl)
  | inr other ↦ let (p, ps, same) = split-cons s in (String.◌∷◌ c p, ps, rw (other, same) refl)
]

slash : (c : Char) → (code c == b'/') ≡ true → c ≡ "/"
slash c h = Char-path c "/" (ground arith)

join-put_first :
    (c : Char) (p : String) (ps : List String)
    → join (put_first c (p ∷ ps)) ≡ String.◌∷◌ c (join (p ∷ ps))
unfolding join
join-put_first c p [] = refl
join-put_first c p (q ∷ qs) = rw (append.cons c p _) refl

pub join-cons : (p q : String) (qs : List String) → join (p ∷ q ∷ qs) ≡ p <> ("/" <> join (q ∷ qs))
unfolding join
join-cons p q qs = refl

pub slash-append : (s : String) → "/" <> s ≡ String.◌∷◌ "/" s
slash-append s = rw (append.cons "/" "" s, append.nil s) refl

pub join-split : (s : String) → join (split s) ≡ s
unfolding split join
join-split String.[] = refl
join-split (String.◌∷◌ c s) =
    let (p, ps, same) = split-cons s in
    let below : join (p ∷ ps) ≡ s = ap join (sym same) ∙ join-split s in
    elim (Bool-cases (code c == b'/')) [
      | inl h ↦ rw (h, same, append.nil _, slash-append _, below, slash c h) refl
      | inr h ↦ rw (h, same, join-put_first c p ps, below) refl
    ]

pub split-EverySegment : (s : String) → EverySegment (split s)
unfolding split
split-EverySegment String.[] = (tt, tt)
split-EverySegment (String.◌∷◌ c s) =
    let (p, ps, same) = split-cons s in
    let below : EverySegment (p ∷ ps) = subst EverySegment same (split-EverySegment s) in
    elim (Bool-cases (code c == b'/')) [
      | inl h ↦ rw h (tt, split-EverySegment s)
      | inr h ↦ rw (h, same) ((h, below.0), below.1)
    ]

pub split-IsSegment : (s : String) → IsSegment s → split s ≡ s ∷ []
unfolding split
split-IsSegment String.[] h = refl
split-IsSegment (String.◌∷◌ c s) h = rw (h.0, split-IsSegment s h.1) refl

pub split-append : (p s : String) → split (p <> ("/" <> s)) ≡ split p ++ split s
unfolding split
split-append String.[] s = rw (append.nil _, slash-append s) refl
split-append (String.◌∷◌ c p) s =
    let (q, qs, same) = split-cons p in
    elim (Bool-cases (code c == b'/')) [
      | inl h ↦ rw (append.cons c p _, h, split-append p s) refl
      | inr h ↦ rw (append.cons c p _, h, split-append p s, same) refl
    ]

-- The parts before a slash of a channel, and those after it, make it up.
pub join-take-drop :
    (n : ℕ) (ps : List String)
    → suc n < length ps
    → join ps ≡ join (take (suc n) ps) <> ("/" <> join (drop (suc n) ps))
unfolding join
join-take-drop n [] h = absurd (elim h [ ])
join-take-drop n (p ∷ []) h = absurd (omega arith)
join-take-drop zero (p ∷ q ∷ qs) h = refl
join-take-drop (suc n) (p ∷ q ∷ qs) h =
    rw (join-take-drop n (q ∷ qs) (omega arith), append_assoc p _ _, append_assoc "/" _ _) refl
