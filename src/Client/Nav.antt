-- ===== src/Client/Nav.antt =====
-- The bar of navigation links of app/static/app.js, which scrolls sideways: its fades and its wheel.
-- Positions and widths are in hundredths of a pixel. What a browser does: a position is kept between
-- 0 and the part that does not fit, and a scroll event comes some time after the position changed.
pub mod Fades
use ikuzo_neko_pay.Prelude.{
  ℕ, ◌+◌, ◌-◌, Bool, true, false, not, ◌||◌, Option, none, some, List, [], ◌∷◌, ltb, leb, ◌==◌, min,
  if◌then◌else◌,
}
use ikuzo_neko_pay.Prelude.Int.{ℤ, pos, negsuc, ◌+ℤ◌, neg, pos_part, ltb_ℤ, eqb_ℤ}

-- The element, with the classes can-left and can-right, and whether a scroll event is on its way.
pub record Nav : Type 0 where
  pub scroll_width : ℕ
  pub client_width : ℕ
  pub scroll_left : ℕ
  pub can_left : Bool
  pub can_right : Bool
  pub scroll_due : Bool

-- What happens to the bar: the user scrolls it by other means than the wheel, the wheel turns by
-- deltaY, the window takes other widths, the browser delivers the scroll event.
pub data NavEvent : Type 0 where
  dragged : ℕ → NavEvent
  wheel : ℤ → NavEvent
  resized : (scroll_width client_width : ℕ) → NavEvent
  delivered : NavEvent

-- Two pixels.
abbrev pub slack : ℕ
slack = 200

-- `scrollWidth - clientWidth - scrollLeft`
abbrev pub remaining : Nav → ℤ
remaining n = pos n.scroll_width +ℤ neg (pos n.client_width) +ℤ neg (pos n.scroll_left)

-- `updateFades()`
unfoldable pub update_fades : Nav → Nav
update_fades n = record n {
  can_left = ltb slack n.scroll_left;
  can_right = ltb_ℤ (pos slack) (remaining n);
}

-- The part of the bar that does not fit.
abbrev pub overflow : Nav → ℕ
overflow n = n.scroll_width - n.client_width

-- A position, as the browser keeps it; a change of it makes a scroll event due.
abbrev pub move_to : ℕ → Nav → Nav
move_to x n =
    let y = min x (overflow n) in
    record n { scroll_left = y; scroll_due = n.scroll_due || not (y == n.scroll_left) }

-- The listener of the wheel: the bar, and whether it prevents that the page scrolls.
unfoldable pub on_wheel : ℤ → Nav → Nav × Bool
on_wheel delta n =
    if eqb_ℤ delta (pos 0)
    then (n, false)
    else if leb n.scroll_width n.client_width
    then (n, false)
    else (move_to (pos_part (pos n.scroll_left +ℤ delta)) n, true)

-- New widths, the position that fits them, and the resize listener.
unfoldable pub on_resize : ℕ → ℕ → Nav → Nav
unfolding update_fades
on_resize scroll_width client_width n =
    update_fades (
      move_to n.scroll_left (record n { scroll_width = scroll_width; client_width = client_width }))

unfoldable pub on_scroll : Nav → Nav
unfolding update_fades
on_scroll n = if n.scroll_due then update_fades (record n { scroll_due = false }) else n

unfoldable pub handle : NavEvent → Nav → Nav
unfolding on_wheel on_resize on_scroll
handle (dragged x) n = move_to x n
handle (wheel delta) n = (on_wheel delta n).0
handle (resized scroll_width client_width) n = on_resize scroll_width client_width n
handle delivered n = on_scroll n

unfoldable pub handle_all : List NavEvent → Nav → Nav
unfolding handle
handle_all [] n = n
handle_all (ev ∷ evs) n = handle_all evs (handle ev n)

-- The script looks for the bar once; without one it does nothing.
unfoldable pub start : Option Nav → Option Nav
unfolding update_fades
start none = none
start (some n) = some (update_fades n)
