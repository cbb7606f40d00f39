-- ===== src/Tests/Hints.antt =====
-- media/js/vurs.js: an input at fixed events.
use vurs.Prelude.{◌≡◌}
use vurs.Inputs.{Input, ready, focus, blur}
use vurs.Inputs.Shown.{opened, focuses, types, blurs, css-Used}

abbrev search_box : Input
search_box = record { css = "url(hint.png)"; attr = ""; value = "" }

-- The box is entered, filled in and cleared again, and left.
css-Used_example : (blur (record (focus (ready search_box)) { value = "" })).css ≡ "url(hint.png)"
unfolding blur focus ready
css-Used_example = css-Used {i = search_box} (blurs (types "" (types "a" (focuses opened))))
