-- ===== src/Http.antt =====
-- What a service method gives: a value, or the HTTPException that it raises, by its status code.
use lokilinux.Prelude.{ℕ, Bool, true, false, Option, none, some, ◌≡◌, refl, ◌⊎◌, inl, inr}

pub data Http {ℓ} (A : Type ℓ) : Type ℓ where
  done : A → Http A
  http_error : ℕ → Http A

infixl 5 ◌>>=◌ ◌>>◌
abbrev pub ◌>>=◌ {ℓ κ} : {A : Type ℓ} {B : Type κ} → Http A → (A → Http B) → Http B
done a >>= f = f a
http_error c >>= f = http_error c

abbrev pub ◌>>◌ {ℓ} : {B : Type ℓ} → Http (Unit {0}) → Http B → Http B
m >> k = m >>= λ _. k

-- `if not ok: raise HTTPException(status_code=code)`
abbrev pub require : Bool → ℕ → Http (Unit {0})
require true code = done tt
require false code = http_error code

-- `if o is None: raise HTTPException(status_code=code)`
abbrev pub found {ℓ} : {A : Type ℓ} → Option A → ℕ → Http A
found none code = http_error code
found (some a) code = done a

pub Http-cases {ℓ} :
    {A : Type ℓ} (m : Http A) → ((a : A) × (m ≡ done a)) ⊎ ((c : ℕ) × (m ≡ http_error c))
Http-cases (done a) = inl (a, refl)
Http-cases (http_error c) = inr (c, refl)

pub done_injective {ℓ} : {A : Type ℓ} (a b : A) → (done a) ≡ (done b) → a ≡ b
done_injective a b h = cc
