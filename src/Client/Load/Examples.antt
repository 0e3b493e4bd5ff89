-- ===== src/Client/Load/Examples.antt =====
-- A page that is loaded on 2026-06-15 at 10:30, and runs of the navigation bar.
use ikuzo_neko_pay.Prelude.{◌≡◌, refl, none, some, List, [], ◌∷◌, false, arith}
use ikuzo_neko_pay.Prelude.Int.{pos, negsuc, ◌+ℤ◌}
use ikuzo_neko_pay.Client.Time.{LocalDate, now_local_value, fmt_txn_time}
use ikuzo_neko_pay.Client.Time.Local.{IsLocal, read_local, read_local-now_local_value}
use ikuzo_neko_pay.Client.Nav.{
  Nav, NavEvent, wheel, resized, delivered, update_fades, handle, handle_all, start,
}
use ikuzo_neko_pay.Client.Nav.Fades.{FadesExact, handle_all-FadesExact}

abbrev june : LocalDate
june = record { full_year = 2026; month = 5; date = 15; hours = 10; minutes = 30 }

june-IsLocal : IsLocal june
june-IsLocal = omega arith

now_local_value-june : now_local_value june ≡ "2026-06-15T10:30"
unfolding now_local_value
now_local_value-june = refl

read_local-now_local_value_example : read_local (now_local_value june) ≡ some june
read_local-now_local_value_example = read_local-now_local_value june june-IsLocal

-- A time that the constructor of Date refuses is cut out of the text.
fmt_txn_time-refused : fmt_txn_time (λ s. none) (λ t. "") "2026-06-15 02:30:00" ≡ "06-15 02:30"
unfolding fmt_txn_time
fmt_txn_time-refused = refl

-- 600 pixels of links in 400 pixels.
abbrev bar : Nav
bar = record {
  scroll_width = 60000;
  client_width = 40000;
  scroll_left = 0;
  can_left = false;
  can_right = false;
  scroll_due = false;
}

abbrev turns : List NavEvent
turns = wheel (pos 15000) ∷ wheel (pos 15000) ∷ resized 60000 45000 ∷ wheel (negsuc 999) ∷ []

handle_all-FadesExact_example : FadesExact (handle delivered (handle_all turns (update_fades bar)))
unfolding update_fades start
handle_all-FadesExact_example =
    handle_all-FadesExact bar (update_fades bar) turns (omega arith) refl

handle_all-turns : (handle_all turns (update_fades bar)).scroll_left ≡ 14000
unfolding handle_all update_fades ◌+ℤ◌
handle_all-turns = refl
