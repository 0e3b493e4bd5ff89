-- ===== src/Server/Settlement/Examples.antt =====
-- A run of settle on three members.
use ikuzo_neko_pay.Prelude.{◌≡◌, refl, some, List, [], ◌∷◌}
use ikuzo_neko_pay.Prelude.Int.{pos, negsuc}
use ikuzo_neko_pay.Server.Settlement.{Position, settle}
use ikuzo_neko_pay.Server.Settlement.Fair.{Returns, settle-Returns}

-- Member 1 is owed NT$ 100, members 2 and 3 owe NT$ 60 and NT$ 40.
abbrev three : List Position
three =
    record { member_id = 1; display_name = "a"; fairness_net = pos 10000 }
    ∷ record { member_id = 2; display_name = "b"; fairness_net = negsuc 5999 }
    ∷ record { member_id = 3; display_name = "c"; fairness_net = negsuc 3999 }
    ∷ []

settle-three :
    settle three
    ≡ some (
        record {
          from_member_id = 2;
          from_name = "b";
          to_member_id = 1;
          to_name = "a";
          amount_nt = 6000;
        }
        ∷ record {
          from_member_id = 3;
          from_name = "c";
          to_member_id = 1;
          to_name = "a";
          amount_nt = 4000;
        }
        ∷ [])
unfolding settle
settle-three = refl

settle-Returns_example : Returns three (settle three)
settle-Returns_example = settle-Returns three
