-- ===== src/Base/Results.antt =====
-- A Go result pair `(value, error)`: one of the two.
use mathlib.Core.Path.{◌≡◌, refl, subst}

pub data Result {ℓ} (E : Type 0) (A : Type ℓ) : Type ℓ where
  ok : A → Result E A
  err : E → Result E A

infixl 5 ◌>>=◌ ◌>>◌
abbrev pub ◌>>=◌ {ℓ κ} :
    {E : Type 0} {A : Type ℓ} {B : Type κ} → Result E A → (A → Result E B) → Result E B
ok a >>= f = f a
err e >>= f = err e

abbrev pub ◌>>◌ {ℓ} : {E : Type 0} {B : Type ℓ} → Result E (Unit {0}) → Result E B → Result E B
m >> k = m >>= λ _. k

pub ok-injective {ℓ} :
    {E : Type 0} {A : Type ℓ} {a b : A} → ◌≡◌ {A = Result E A} (ok a) (ok b) → a ≡ b
ok-injective h = cc

-- A postcondition on success, and its rule for a chain.
abbrev pub Post {ℓ κ} : {E : Type 0} {A : Type ℓ} → (A → Type κ) → Result E A → Type κ
Post P (ok a) = P a
Post P (err e) = Unit

pub Post-bind {ℓ κ ι} :
    {E : Type 0} {A : Type ℓ} {B : Type κ} (P : B → Type ι) (m : Result E A) (f : A → Result E B)
    → ((a : A) → m ≡ ok a → Post P (f a))
    → Post P (m >>= f)
Post-bind P (ok a) f h = h a refl
Post-bind P (err e) f h = tt

pub Post-ok {ℓ κ} :
    {E : Type 0} {A : Type ℓ} (P : A → Type κ) (m : Result E A) {a : A} → Post P m → m ≡ ok a → P a
Post-ok P (ok b) h e = subst P (ok-injective e) h
Post-ok P (err x) h e = absurd (cc e)

-- The value that a successful chain passes on.
abbrev pub Through {ℓ κ} :
    {E : Type 0} {A : Type ℓ} {B : Type κ} → Result E A → (A → Result E B) → B → Type (ℓ ⊔ κ)
Through {A = A} first next result = (passed : A) × (next passed ≡ ok result) × (first ≡ ok passed)

pub >>=-Through {ℓ κ} :
    {E : Type 0} {A : Type ℓ} {B : Type κ} (first : Result E A) (next : A → Result E B) (result : B)
    → (first >>= next) ≡ ok result
    → Through first next result
>>=-Through (err e) next result h = absurd (cc h)
>>=-Through (ok passed) next result h = (passed, h, refl)
