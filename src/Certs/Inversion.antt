-- ===== src/Certs/Inversion.antt =====
-- What a chain of steps that ends well went through.
use semantic_echo.Base.{◌≡◌, refl}
use semantic_echo.Certs.{Result, ok, fatal, panic, ◌>>=◌}

pub bind_ok {ℓ κ} :
    {A : Type ℓ} {B : Type κ} (r : Result A) (f : A → Result B) (b : B)
    → (r >>= f) ≡ ok b
    → (a : A) × (r ≡ ok a) × (f a ≡ ok b)
bind_ok (ok a) f b e = (a, refl, e)
bind_ok fatal f b e = cc
bind_ok panic f b e = cc

pub ok_injective {ℓ} : {A : Type ℓ} {a b : A} → ok a ≡ ok b → a ≡ b
ok_injective e = cc
