-- ===== src/Server/Text.antt =====
-- Numbers as texts, as Python's f-strings and str write them.
use Prim.Native.String.{◌++◌}
use ikuzo_neko_pay.Prelude.{suc, String}
use ikuzo_neko_pay.Prelude.Int.{ℤ, pos, negsuc}
use ikuzo_neko_pay.Client.Time.{to_text}

unfoldable pub decimal : ℤ → String
unfolding to_text
decimal (pos n) = to_text n
decimal (negsuc n) = "-" ++ to_text (suc n)
