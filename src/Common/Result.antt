-- ===== src/Common/Result.antt =====
-- Code that may raise: a value, or the exception as a value.
use mathlib.Core.Path.{◌≡◌, refl, subst}
use mathlib.Core.Logic.{◌⊎◌, inl, inr}
use mathlib.Core.Bool.{Bool, true, false}
use cubrid_mcp_server.Common.Tests.{if◌then◌else◌}

pub data Result {ℓ} (E : Type 0) (A : Type ℓ) : Type ℓ where
  ok : A → Result E A
  err : E → Result E A

infixl 5 ◌>>=◌ ◌>>◌
abbrev pub ◌>>=◌ {ℓ κ} :
    {E : Type 0} {A : Type ℓ} {B : Type κ} → Result E A → (A → Result E B) → Result E B
ok a >>= f = f a
err e >>= f = err e

abbrev pub ◌>>◌ {ℓ} : {E : Type 0} {B : Type ℓ} → Result E (Unit {0}) → Result E B → Result E B
m >> k = m >>= λ _. k

-- `if b: raise e`
abbrev pub raise_if : {E : Type 0} → Bool → E → Result E (Unit {0})
raise_if true e = err e
raise_if false e = ok tt

pub bind-eq-ok {ℓ κ} :
    {E : Type 0} {A : Type ℓ} {B : Type κ} (m : Result E A) (f : A → Result E B) {b : B}
    → (m >>= f) ≡ ok b
    → (a : A) × (m ≡ ok a) × (f a ≡ ok b)
bind-eq-ok (ok a) f h = (a, refl, h)
bind-eq-ok (err e) f h = cc

pub raise_if-eq-ok : {E : Type 0} (b : Bool) (e : E) → raise_if b e ≡ ok tt → b ≡ false
raise_if-eq-ok true e h = cc
raise_if-eq-ok false e h = refl

pub Result-cases {ℓ} :
    {E : Type 0} {A : Type ℓ} (r : Result E A) → ((a : A) × (r ≡ ok a)) ⊎ ((e : E) × (r ≡ err e))
Result-cases (ok a) = inl (a, refl)
Result-cases (err e) = inr (e, refl)

-- What holds of the value, if there is one.
pub record Ensures {ℓ κ} {E : Type 0} {A : Type ℓ} (P : A → Type κ) (r : Result E A)
    : Type (ℓ ⊔ κ) where
  pub ensured : (a : A) → r ≡ ok a → P a

pub Ensures-bind {ℓ κ μ ν} :
    {E : Type 0} {A : Type ℓ} {B : Type κ} (Q : A → Type μ) (P : B → Type ν) (m : Result E A)
    (f : A → Result E B)
    → Ensures Q m
    → ((a : A) → Q a → Ensures P (f a))
    → Ensures P (m >>= f)
Ensures-bind Q P m f q h = record {
  ensured = λ b e. let (a, e', e'') = bind-eq-ok m f e in (h a (q.ensured a e')).ensured b e'';
}

pub Ensures-ok {ℓ κ} :
    {E : Type 0} {A : Type ℓ} (P : A → Type κ) (a : A) → P a → Ensures {E = E} P (ok a)
Ensures-ok P a h = record { ensured = λ b e. subst P (cc e) h }

pub Ensures-err {ℓ κ} : {E : Type 0} {A : Type ℓ} (P : A → Type κ) (e : E) → Ensures P (err e)
Ensures-err P e = record { ensured = λ b q. cc }

pub Ensures-raise_if : {E : Type 0} (b : Bool) (e : E) → Ensures (λ u. b ≡ false) (raise_if b e)
Ensures-raise_if true e = Ensures-err _ e
Ensures-raise_if false e = Ensures-ok _ tt refl

pub Ensures-all {ℓ} : {E : Type 0} {A : Type ℓ} (r : Result E A) → Ensures (λ a. Unit {0}) r
Ensures-all r = record { ensured = λ a e. tt }

pub Ensures-self {ℓ} : {E : Type 0} {A : Type ℓ} (r : Result E A) → Ensures (λ a. r ≡ ok a) r
Ensures-self r = record { ensured = λ a e. e }

pub Ensures-if {ℓ κ} :
    {E : Type 0} {A : Type ℓ} (P : A → Type κ) (b : Bool) (r r' : Result E A)
    → (b ≡ true → Ensures P r)
    → (b ≡ false → Ensures P r')
    → Ensures P (if b then r else r')
Ensures-if P true r r' h h' = h refl
Ensures-if P false r r' h h' = h' refl
