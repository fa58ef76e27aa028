-- ===== src/Result.antt =====
-- The outcome of code that may throw. `thrown` stands for any exception, and `out_of_fuel` for a
-- loop of the model that was given too few rounds; the program has no such outcome.
use larafeed.Prelude.{◌≡◌, ◌≢◌, refl, subst, Bool, true, false, if◌then◌else◌}

pub data Result {ℓ} (A : Type ℓ) : Type ℓ where
  ok : A → Result A
  thrown out_of_fuel : Result A

infixl 5 ◌>>=◌
abbrev pub ◌>>=◌ {ℓ κ} : {A : Type ℓ} {B : Type κ} → Result A → (A → Result B) → Result B
ok a >>= f = f a
thrown >>= f = thrown
out_of_fuel >>= f = out_of_fuel

-- The run keeps within its fuel, and what it returns, if it returns, has the property `P`.
abbrev pub Ensures {ℓ} : {A : Type ℓ} → (A → Type 0) → Result A → Type 0
Ensures P (ok a) = P a
Ensures P thrown = Unit
Ensures P out_of_fuel = ⊥

module _ {ℓ} {A : Type ℓ} (P : A → Type 0) where
  pub Ensures-weaken :
      (Q : A → Type 0) (r : Result A) → ((a : A) → P a → Q a) → Ensures P r → Ensures Q r
  Ensures-weaken Q (ok a) f h = f a h
  Ensures-weaken Q thrown f h = tt
  Ensures-weaken Q out_of_fuel f h = elim h [ ]

  pub Ensures-bind {κ} :
      {B : Type κ} (Q : B → Type 0) (r : Result A) (f : A → Result B)
      → Ensures P r
      → ((a : A) → P a → Ensures Q (f a))
      → Ensures Q (r >>= f)
  Ensures-bind Q (ok a) f h k = k a h
  Ensures-bind Q thrown f h k = tt
  Ensures-bind Q out_of_fuel f h k = elim h [ ]

  pub Ensures-if :
      (b : Bool) (x y : Result A)
      → (b ≡ true → Ensures P x)
      → (b ≡ false → Ensures P y)
      → Ensures P (if b then x else y)
  Ensures-if true x y h k = h refl
  Ensures-if false x y h k = k refl

  pub Ensures-ok : (r : Result A) {a : A} → r ≡ ok a → Ensures P r → P a
  Ensures-ok r e h = subst (Ensures P) e h

  pub Ensures-out_of_fuel : (r : Result A) → Ensures P r → r ≢ out_of_fuel
  Ensures-out_of_fuel r h e = subst (Ensures P) e h

-- The run returns, with a value that has the property `P`.
abbrev pub Returns {ℓ} : {A : Type ℓ} → (A → Type 0) → Result A → Type 0
Returns P (ok a) = P a
Returns P thrown = ⊥
Returns P out_of_fuel = ⊥

module _ {ℓ} {A : Type ℓ} (P : A → Type 0) where
  pub Returns-weaken :
      (Q : A → Type 0) (r : Result A) → ((a : A) → P a → Q a) → Returns P r → Returns Q r
  Returns-weaken Q (ok a) f h = f a h
  Returns-weaken Q thrown f h = elim h [ ]
  Returns-weaken Q out_of_fuel f h = elim h [ ]

  pub Returns-bind {κ} :
      {B : Type κ} (Q : B → Type 0) (r : Result A) (f : A → Result B)
      → Returns P r
      → ((a : A) → P a → Returns Q (f a))
      → Returns Q (r >>= f)
  Returns-bind Q (ok a) f h k = k a h
  Returns-bind Q thrown f h k = elim h [ ]
  Returns-bind Q out_of_fuel f h k = elim h [ ]

  pub Returns-ok : (r : Result A) → Returns P r → (a : A) × (r ≡ ok a) × P a
  Returns-ok (ok a) h = (a, refl, h)
  Returns-ok thrown h = elim h [ ]
  Returns-ok out_of_fuel h = elim h [ ]
