-- ===== src/Channel/Heard.antt =====
-- media/js/cometd.js, `_notifyListeners`: which globbing channels hear a message.
use vurs.Prelude.{
  ℕ, zero, suc, ◌+◌, ◌-◌, ◌<◌, String, Bool-cases, true, List, [], ◌∷◌, ◌++◌, ◌≡◌, ◌⊎◌, ◌↔◌, inl,
  inr, refl, sym, subst, ap, ◌∙◌, ◌==◌, length, length-append, take, arith,
}
use vurs.Channel.{split, join, single_glob, deep_glob, globs_from, notified}
use vurs.Channel.Parts.{
  IsSegment, EverySegment, drop, split-cons, join-split, split-EverySegment, split-IsSegment,
  split-append, join-take-drop,
}
use mathlib.Core.List.{Memᴰ}
use mathlib.Core.List.Memᴰ
use Prim.Native.String.{◌++◌ as ◌<>◌}
use text.Mathlib.TextLemmas.{append_assoc}

-- The channel itself, `above/*` for the text before its last slash, and `above/**` for the text before
-- any of its slashes.
abbrev pub Hears : String → String → Type 0
Hears channel g =
    (g ≡ channel)
    ⊎ ((above : String) × (last : String) × IsSegment last
        × (channel ≡ above <> ("/" <> last))
        × (g ≡ above <> "/*"))
    ⊎ ((above : String) × (rest : String) × (channel ≡ above <> ("/" <> rest))
        × (g ≡ above <> "/**"))

-- One round of the loop, with `n + 1` parts before the slash.
abbrev Round : List String → ℕ → ℕ → String → Type 0
Round parts last n g =
    (g ≡ deep_glob (take (suc n) parts)) ⊎ ((suc n ≡ last) × (g ≡ single_glob (take (suc n) parts)))

same_number : (a b : ℕ) → (a == b) ≡ true → a ≡ b
same_number a b h = ground arith

globs_from-Round :
    (parts : List String) (last i : ℕ) (g : String)
    → Memᴰ g (globs_from parts last i)
    → (n : ℕ) × (n < i) × Round parts last n g
unfolding globs_from
globs_from-Round parts last zero g m = absurd (Memᴰ.not-nil m)
globs_from-Round parts last (suc i) g m =
    let below : Memᴰ g (globs_from parts last i) → (n : ℕ) × (n < suc i) × Round parts last n g =
      λ d. let (n, h, r) = globs_from-Round parts last i g d in (n, omega arith, r) in
    let deep : Memᴰ g (deep_glob (take (suc i) parts) ∷ globs_from parts last i)
        → (n : ℕ) × (n < suc i) × Round parts last n g =
      λ d. elim (Memᴰ.cases_cons d) [ inl e ↦ (i, omega arith, inl e) | inr t ↦ below t ] in
    elim (Bool-cases (suc i == last)) [
      | inl h ↦ elim (Memᴰ.cases_cons (rw h at m)) [
        | inl e ↦ (i, omega arith, inr (same_number (suc i) last h, e))
        | inr t ↦ deep t
      ]
      | inr h ↦ deep (rw h at m)
    ]

-- The channels of one round are among those of all rounds.
globs_from-deep :
    (parts : List String) (last i n : ℕ)
    → n < i
    → Memᴰ (deep_glob (take (suc n) parts)) (globs_from parts last i)
unfolding globs_from
globs_from-deep parts last zero n h = absurd (elim h [ ])
globs_from-deep parts last (suc i) n h =
    let first_or_below : (n ≡ i) ⊎ (n < i) = omega arith in
    let found : Memᴰ (deep_glob (take (suc n) parts))
        (deep_glob (take (suc i) parts) ∷ globs_from parts last i) =
      elim first_or_below [
        | inl e ↦ Memᴰ.head (ap (λ k. deep_glob (take (suc k) parts)) e)
        | inr l ↦ Memᴰ.tail (globs_from-deep parts last i n l)
      ] in
    elim (Bool-cases (suc i == last)) [ inl e ↦ rw e (Memᴰ.tail found) | inr e ↦ rw e found ]

globs_from-single :
    (parts : List String) (last n : ℕ)
    → suc n ≡ last
    → Memᴰ (single_glob (take (suc n) parts)) (globs_from parts last (suc n))
unfolding globs_from
globs_from-single parts last n h =
    let same : (suc n == last) ≡ true = ground arith in rw same (Memᴰ.head refl)

-- The part after the last slash is a segment.
drop-IsSegment :
    (n : ℕ) (ps : List String) → suc n ≡ length ps → EverySegment ps → IsSegment (join (drop n ps))
unfolding join
drop-IsSegment n [] h each = absurd (omega arith)
drop-IsSegment zero (p ∷ []) h each = each.0
drop-IsSegment zero (p ∷ q ∷ qs) h each = absurd (omega arith)
drop-IsSegment (suc n) (p ∷ ps) h each = drop-IsSegment n ps (omega arith) each.1

take-append : (ps qs : List String) → take (length ps) (ps ++ qs) ≡ ps
take-append [] qs = refl
take-append (p ∷ ps) qs = ap (◌∷◌ p) (take-append ps qs)

deep_text : (parts : List String) → deep_glob parts ≡ join parts <> "/**"
deep_text parts = append_assoc (join parts) "/*" "*"

notified-Hears : (channel g : String) → Memᴰ g (notified channel) → Hears channel g
unfolding notified
notified-Hears channel g m = elim (Memᴰ.cases_cons m) [
  | inl e ↦ inl e
  | inr t ↦
      let parts = split channel in
      let (n, h, r) = globs_from-Round parts (length parts - 1) (length parts - 1) g t in
      let above = join (take (suc n) parts) in
      let rest = join (drop (suc n) parts) in
      let made : channel ≡ above <> ("/" <> rest) =
        sym (join-split channel) ∙ join-take-drop n parts (omega arith) in
      elim r [
        | inl e ↦ inr (inr (above, rest, made, e ∙ deep_text (take (suc n) parts)))
        | inr (at_last, e) ↦ inr (
            inl (
              above,
              rest,
              drop-IsSegment (suc n) parts (omega arith) (split-EverySegment channel),
              made,
              e,
            ))
      ]
]

-- The round that a slash of a channel gives: the parts before it are those of the text before it.
round_of :
    (above rest : String)
    → let parts = split (above <> ("/" <> rest)) in
      (n : ℕ) × (join (take (suc n) parts) ≡ above) × (suc n + length (split rest) ≡ length parts)
round_of above rest =
    let (p, ps, same) = split-cons above in
    let whole = ap length (split-append above rest) ∙ length-append (split above) (split rest) in
    let count = ap length same in
    let taken : take (suc (length ps)) (split (above <> ("/" <> rest))) ≡ split above =
      ap (take (suc (length ps))) (split-append above rest)
      ∙ ap (λ n. take n (split above ++ split rest)) (sym count)
      ∙ take-append (split above) (split rest) in
    (length ps, ap join taken ∙ join-split above, omega arith)

Hears-below : (above rest : String) → Memᴰ (above <> "/**") (notified (above <> ("/" <> rest)))
unfolding notified
Hears-below above rest =
    let parts = split (above <> ("/" <> rest)) in
    let (n, taken, count) = round_of above rest in
    let (q, qs, after) = split-cons rest in
    let some_part = ap length after in
    let text = deep_text (take (suc n) parts) ∙ ap (λ s. s <> "/**") taken in
    Memᴰ.tail (
      Memᴰ.cast (sym text)
        (globs_from-deep parts (length parts - 1) (length parts - 1) n (omega arith)))

Hears-beside :
    (above last : String)
    → IsSegment last
    → Memᴰ (above <> "/*") (notified (above <> ("/" <> last)))
unfolding notified
Hears-beside above last h =
    let parts = split (above <> ("/" <> last)) in
    let (n, taken, count) = round_of above last in
    let one = ap length (split-IsSegment last h) in
    let at_last : suc n ≡ length parts - 1 = omega arith in
    let heard : Memᴰ (single_glob (take (suc n) parts))
        (globs_from parts (length parts - 1) (length parts - 1)) =
      subst (λ k. Memᴰ (single_glob (take (suc n) parts)) (globs_from parts (length parts - 1) k))
        at_last (globs_from-single parts (length parts - 1) n at_last) in
    Memᴰ.tail (Memᴰ.cast (ap (λ s. s <> "/*") (sym taken)) heard)

Hears-notified : (channel g : String) → Hears channel g → Memᴰ g (notified channel)
unfolding notified
Hears-notified channel g (inl e) = Memᴰ.head e
Hears-notified channel g (inr (inl (above, last, segment, made, e))) =
    Memᴰ.cast e
      (subst (λ c. Memᴰ (above <> "/*") (notified c)) (sym made) (Hears-beside above last segment))
Hears-notified channel g (inr (inr (above, rest, made, e))) =
    Memᴰ.cast e
      (subst (λ c. Memᴰ (above <> "/**") (notified c)) (sym made) (Hears-below above rest))

-- The channels whose listeners hear a message are these and no other: its own channel, the text before
-- the channel's last slash with `/*` behind it, and the text before any slash of the channel
-- with `/**` behind it.
pub notified_iff : (channel g : String) → Memᴰ g (notified channel) ↔ Hears channel g
notified_iff channel g = (notified-Hears channel g, Hears-notified channel g)
