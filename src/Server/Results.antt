-- ===== src/Server/Results.antt =====
-- What a chain of steps that returned says of its steps.
use ikuzo_neko_pay.Prelude.{◌≡◌, refl, Bool, true, false, Option, none, some}
use ikuzo_neko_pay.Server.Store.{Error, Result, ok, err, ◌>>=◌, ◌>>◌, raise_if}

pub bind-ok :
    {A B : Type 0} (r : Result A) (f : A → Result B) (b : B)
    → (r >>= f) ≡ ok b
    → (a : A) × (r ≡ ok a) × (f a ≡ ok b)
bind-ok (ok a) f b h = (a, refl, h)
bind-ok (err x) f b h = cc

pub raise_if-ok :
    {A : Type 0} (b : Bool) (x : Error) (m : Result A) (a : A)
    → (raise_if b x >> m) ≡ ok a
    → (b ≡ false) × (m ≡ ok a)
raise_if-ok true x m a h = cc
raise_if-ok false x m a h = (refl, h)

-- A row that was looked up, or an error.
pub found-ok :
    {A B : Type 0} (o : Option A) (x : Error) (f : A → Result B) (b : B)
    → (elim o as (λ k. Result B) [ none ↦ err x | some a ↦ f a ]) ≡ ok b
    → (a : A) × (o ≡ some a) × (f a ≡ ok b)
found-ok none x f b h = cc
found-ok (some a) x f b h = (a, refl, h)

pub ok-pair :
    {A B : Type 0} (a c : A) (b d : B)
    → ◌≡◌ {A = Result (A × B)} (ok (a, b)) (ok (c, d))
    → (a ≡ c) × (b ≡ d)
ok-pair a c b d h = (cc, cc)
