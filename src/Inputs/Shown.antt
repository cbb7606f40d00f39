-- ===== src/Inputs/Shown.antt =====
-- media/js/vurs.js: when the background of an input is shown.
use vurs.Prelude.{
  String, Bool, true, false, Bool-cases, not, ◌||◌, ◌===◌, ◌≡◌, refl, inl, inr, if◌then◌else◌,
}
use vurs.Inputs.{Input, transparent, ready, focus, blur}

-- How an input gets from the loading of its page to a later state, the focus being on it or not: it gets
-- and loses the focus in turn, and has its value changed only while it has it.
pub data Used (i : Input) : Bool → Input → Type 0 where
  opened : Used i false (ready i)
  focuses : {u : Input} → Used i false u → Used i true (focus u)
  types : {u : Input} (v : String) → Used i true u → Used i true (record u { value = v })
  blurs : {u : Input} → Used i true u → Used i false (blur u)

-- Its own background is kept, and shown while it is empty and without the focus.
record IsShown (i : Input) (focused : Bool) (u : Input) : Type 0 where
  pub kept : u.attr ≡ i.css
  pub shown : u.css ≡ (if focused || not (u.value === "") then transparent else i.css)

Used-IsShown : {i u : Input} {focused : Bool} → Used i focused u → IsShown i focused u
unfolding ready focus blur
Used-IsShown {i = i} opened = elim (Bool-cases (i.value === "")) [
  | inl e ↦ rw e (record { kept = refl; shown = rw e refl })
  | inr e ↦ rw e (record { kept = refl; shown = rw e refl })
]
Used-IsShown (focuses {u = u} used) =
    let h = Used-IsShown used in record { kept = h.kept; shown = refl }
Used-IsShown (types {u = u} v used) =
    let h = Used-IsShown used in record { kept = h.kept; shown = h.shown }
Used-IsShown (blurs {u = u} used) =
    let h = Used-IsShown used in
    elim (Bool-cases (u.value === "")) [
      | inl e ↦ rw e (record { kept = h.kept; shown = rw (e, h.kept) refl })
      | inr e ↦ rw e (record { kept = h.kept; shown = rw e h.shown })
    ]

-- Once the page is ready, and however its user has gone in and out of an input and typed in it: the
-- input shows the background that it was loaded with if it is empty and has not the focus, and is
-- transparent otherwise.
pub css-Used :
    {i u : Input} {focused : Bool}
    → Used i focused u
    → u.css ≡ (if focused || not (u.value === "") then transparent else i.css)
css-Used used = (Used-IsShown used).shown
