-- ===== src/Record/Protect/Values.antt =====
-- What holds of every value that encrypt and decrypt of conn.go may return.
use goktls.Base.{ℕ, ◌⊎◌, inl, inr, ◌≡◌, refl, Bool, true, false, if◌then◌else◌, subst}
use goktls.Record.Protect.{Result, ok, alert, io_error, panic, ◌>>=◌}

-- A call of which every value has the property.
pub data Always {ℓ} {A : Type ℓ} (P : A → Type 0) (r : Result A) : Type ℓ where
  always : ((a : A) → r ≡ ok a → P a) → Always P r

pub Always-bind {ℓ κ} :
    {A : Type ℓ} {B : Type κ} (P : B → Type 0) (r : Result A) (f : A → Result B)
    → ((a : A) → Always P (f a))
    → Always P (r >>= f)
Always-bind P (ok a) f g = g a
Always-bind P (alert a) f g = always λ b e. absurd (cc e)
Always-bind P (io_error n) f g = always λ b e. absurd (cc e)
Always-bind P panic f g = always λ b e. absurd (cc e)

-- The same with what holds of the first value.
pub Always-then {ℓ κ} :
    {A : Type ℓ} {B : Type κ} (Q : A → Type 0) (P : B → Type 0) (r : Result A) (f : A → Result B)
    → Always Q r
    → ((a : A) → Q a → Always P (f a))
    → Always P (r >>= f)
Always-then Q P (ok a) f (always h) g = g a (h a refl)
Always-then Q P (alert a) f h g = always λ b e. absurd (cc e)
Always-then Q P (io_error n) f h g = always λ b e. absurd (cc e)
Always-then Q P panic f h g = always λ b e. absurd (cc e)

pub Always-if {ℓ} :
    {A : Type ℓ} (P : A → Type 0) (b : Bool) (r s : Result A)
    → Always P r
    → Always P s
    → Always P (if b then r else s)
Always-if P true r s h g = h
Always-if P false r s h g = g

pub Always-holds {ℓ} :
    {A : Type ℓ} (P : A → Type 0) {r : Result A} → Always P r → (a : A) → r ≡ ok a → P a
Always-holds P (always h) a e = h a e

pub Always-ok {ℓ} : {A : Type ℓ} (P : A → Type 0) (b : A) → P b → Always P (ok b)
Always-ok P b h = always λ a e. let same : b ≡ a = cc e in subst P same h

pub Result-cases {ℓ} :
    {A : Type ℓ} (r : Result A)
    → ((a : A) × (r ≡ ok a))
      ⊎ (((n : ℕ) × (r ≡ alert n)) ⊎ (((n : ℕ) × (r ≡ io_error n)) ⊎ (r ≡ panic)))
Result-cases (ok a) = inl (a, refl)
Result-cases (alert n) = inr (inl (n, refl))
Result-cases (io_error n) = inr (inr (inl (n, refl)))
Result-cases panic = inr (inr (inr refl))
