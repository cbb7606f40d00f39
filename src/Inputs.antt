-- ===== src/Inputs.antt =====
-- media/js/vurs.js: inputs and text areas whose background, a hint, is hidden while they are used or
-- filled in. jQuery's `css`, `attr` and `val` read and write the parts of an element.
pub mod Shown
use vurs.Prelude.{String, ◌===◌, if◌then◌else◌, List, map}

-- The background of an element's style, its attribute of that name, and its value.
pub record Input : Type 0 where
  pub css : String
  pub attr : String
  pub value : String

abbrev pub transparent : String
transparent = "transparent"

-- What is done to each element once the page is ready.
unfoldable pub ready : Input → Input
ready i =
    if i.value === ""
    then record i { attr = i.css }
    else record i { attr = i.css; css = transparent }

unfoldable pub ready_all : List Input → List Input
unfolding ready
ready_all = map ready

-- The handlers of its events.
unfoldable pub focus : Input → Input
focus i = record i { css = transparent }

unfoldable pub blur : Input → Input
blur i = if i.value === "" then record i { css = i.attr } else i
