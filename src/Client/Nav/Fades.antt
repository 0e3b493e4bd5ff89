-- ===== src/Client/Nav/Fades.antt =====
-- The fades of the navigation bar show on the sides that hide something.
use mathlib.Core.Option.{some-injective}
use ikuzo_neko_pay.Prelude.{
  subst, ℕ, ◌-◌, ◌≤◌, ◌<◌, ◌≡◌, ◌↔◌, refl, Bool, true, false, List, [], ◌∷◌, ltb, arith, some,
}
use ikuzo_neko_pay.Prelude.Int.{pos, int_laws, ltb_ℤ}
use ikuzo_neko_pay.Client.Nav.{
  Nav, NavEvent, dragged, wheel, resized, delivered, slack, remaining, overflow, update_fades,
  move_to, on_wheel, on_resize, on_scroll, handle, handle_all, start,
}

-- The position lies within the bar, and where no scroll event is due, the fade of a side shows
-- exactly if more than two pixels are hidden there.
pub record IsShown (n : Nav) : Type 0 where
  pub within : n.scroll_left ≤ overflow n
  pub left : n.scroll_due ≡ false → n.can_left ≡ ltb slack n.scroll_left
  pub right : n.scroll_due ≡ false → n.can_right ≡ ltb slack (overflow n - n.scroll_left)

ltb-remaining :
    (n : Nav)
    → n.scroll_left ≤ overflow n
    → ltb_ℤ (pos slack) (remaining n) ≡ ltb slack (overflow n - n.scroll_left)
ltb-remaining n h = grind int_laws

update_fades-IsShown : (n : Nav) → n.scroll_left ≤ overflow n → IsShown (update_fades n)
unfolding update_fades
update_fades-IsShown n h = record { within = h; left = λ d. refl; right = λ d. ltb-remaining n h }

handle-IsShown : (ev : NavEvent) (n : Nav) → IsShown n → IsShown (handle ev n)
unfolding handle on_scroll on_resize on_wheel
handle-IsShown (dragged x) n s = ground arith
handle-IsShown (wheel delta) n s = ground arith
handle-IsShown (resized w c) n s =
    update_fades-IsShown (move_to n.scroll_left (record n { scroll_width = w; client_width = c }))
      (omega arith)
handle-IsShown delivered n s = ground (arith, ltb-remaining n s.within)

handle_all-IsShown : (evs : List NavEvent) (n : Nav) → IsShown n → IsShown (handle_all evs n)
unfolding handle_all
handle_all-IsShown [] n s = s
handle_all-IsShown (ev ∷ evs) n s = handle_all-IsShown evs (handle ev n) (handle-IsShown ev n s)

delivered-not_due : (n : Nav) → (handle delivered n).scroll_due ≡ false
unfolding handle on_scroll update_fades
delivered-not_due n = ground arith

-- What the user sees is hidden on each side, and the fade there.
abbrev pub FadesExact : Nav → Type 0
FadesExact n =
    ((n.can_left ≡ true) ↔ (slack < n.scroll_left))
    × ((n.can_right ≡ true) ↔ (slack < overflow n - n.scroll_left))

ltb_iff : (a b : ℕ) (c : Bool) → c ≡ ltb a b → (c ≡ true) ↔ (a < b)
ltb_iff a b c h = ground arith

-- From the start of the script on, after any scrolling, wheeling and resizing and once the browser has
-- delivered a scroll event, each fade shows exactly if more than two pixels are hidden on its side.
pub handle_all-FadesExact :
    (n m : Nav) (evs : List NavEvent)
    → n.scroll_left ≤ overflow n
    → start (some n) ≡ some m
    → FadesExact (handle delivered (handle_all evs m))
unfolding start
handle_all-FadesExact n m evs h started =
    let shown = handle-IsShown delivered (handle_all evs m) (
      handle_all-IsShown evs m
        (subst IsShown (some-injective _ _ started) (update_fades-IsShown n h))) in
    let settled = delivered-not_due (handle_all evs m) in
    (ltb_iff slack _ _ (shown.left settled), ltb_iff slack _ _ (shown.right settled))
