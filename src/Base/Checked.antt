-- ===== src/Base/Checked.antt =====
-- Results with an error of a type of their own, and the early return `?` as a bind.
use mathlib.Core.Path.{◌≡◌, refl, sym, subst}
use mathlib.Core.Bool.{Bool, true, false}
use mathlib.Core.Option.{Option, none, some}
use mathlib.Core.Logic.{◌⊎◌, inl, inr}

pub data Result {ℓ} (E A : Type ℓ) : Type ℓ where
  ok : A → Result E A
  err : E → Result E A

infixl 5 ◌>>=◌ ◌>>◌
abbrev pub ◌>>=◌ : {E A B : Type 0} → Result E A → (A → Result E B) → Result E B
ok a >>= f = f a
err e >>= f = err e

abbrev pub ◌>>◌ : {E B : Type 0} → Result E (Unit {0}) → Result E B → Result E B
m >> k = m >>= λ _. k

abbrev pub guard : {E : Type 0} → Bool → E → Result E (Unit {0})
guard true e = ok tt
guard false e = err e

-- `Option::ok_or`.
abbrev pub ok_or : {E A : Type 0} → Option A → E → Result E A
ok_or none e = err e
ok_or (some a) e = ok a

abbrev pub is_ok : {E A : Type 0} → Result E A → Bool
is_ok (ok a) = true
is_ok (err e) = false

pub Result-cases :
    {E A : Type 0} (r : Result E A) → ((a : A) × (r ≡ ok a)) ⊎ ((e : E) × (r ≡ err e))
Result-cases (ok a) = inl (a, refl)
Result-cases (err e) = inr (e, refl)

-- What holds of every value that a computation gives, if it gives one.
unfoldable pub Gives : {E A : Type 0} → (A → Type 0) → Result E A → Type 0
Gives P (ok a) = P a
Gives P (err e) = Unit

pub ok-Gives :
    (E : Type 0) {A : Type 0} (P : A → Type 0) (a : A)
    → P a
    → let r : Result E A = ok a in Gives P r
unfolding Gives
ok-Gives E P a h = h

pub bind-Gives :
    {E A B : Type 0} (P : A → Type 0) (Q : B → Type 0) (m : Result E A) (f : A → Result E B)
    → Gives P m
    → ((a : A) → P a → Gives Q (f a))
    → Gives Q (m >>= f)
unfolding Gives
bind-Gives P Q (ok a) f h k = k a h
bind-Gives P Q (err e) f h k = tt

pub guard-Gives :
    {E B : Type 0} (Q : B → Type 0) (b : Bool) (e : E) (k : Result E B)
    → (b ≡ true → Gives Q k)
    → Gives Q (guard b e >> k)
unfolding Gives
guard-Gives Q true e k h = h refl
guard-Gives Q false e k h = tt

-- Whatever the first step gives.
pub after-Gives :
    {E A B : Type 0} (Q : B → Type 0) (m : Result E A) (f : A → Result E B)
    → ((a : A) → Gives Q (f a))
    → Gives Q (m >>= f)
unfolding Gives
after-Gives Q (ok a) f k = k a
after-Gives Q (err e) f k = tt

-- A step that gives one value at most.
pub via :
    {E A B : Type 0} (a : A) (P : A → Type 0) (Q : B → Type 0) (m : Result E A) (f : A → Result E B)
    → Gives (λ q. (q ≡ a) × P q) m
    → (P a → Gives Q (f a))
    → Gives Q (m >>= f)
via a P Q m f h k =
    bind-Gives (λ q. (q ≡ a) × P q) Q m f h
      (λ q (e, g). subst (λ x. Gives Q (f x)) (sym e) (k (subst P e g)))
