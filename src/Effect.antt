-- ===== src/Effect.antt =====
-- Asynchronous code that reads and changes a world `W` and may throw: a call of an `async` function
-- in src/worker. A call that throws may have changed the world before.
pub mod Laws
use larafeed.Prelude.{ℕ, List, ◌≡◌, refl, String}

-- A value that is thrown: an `Error` with its name, its message and the numbers that it carries, or
-- any other.
pub data Cause : Type 0 where
  error : String → String → List ℕ → Cause
  other : Cause

pub data Try {ℓ} (A : Type ℓ) : Type ℓ where
  returned : A → Try A
  threw : Cause → Try A

abbrev pub Io {ℓ} : Type 0 → Type ℓ → Type ℓ
Io W A = W → Try A × W

module _ {W : Type 0} where
  unfoldable pub pure {ℓ} : {A : Type ℓ} → A → Io W A
  pure a w = (returned a, w)

  abbrev pub after {ℓ κ} : {A : Type ℓ} {B : Type κ} → Try A × W → (A → Io W B) → Try B × W
  after (returned a, w) f = f a w
  after (threw c, w) f = (threw c, w)

  infixl 5 ◌>>=◌
  unfoldable pub ◌>>=◌ {ℓ κ} : {A : Type ℓ} {B : Type κ} → Io W A → (A → Io W B) → Io W B
  ◌>>=◌ m f w = after (m w) f

  -- the outcome of a `try` block, for its `catch` or for what follows
  unfoldable pub attempt {ℓ} : {A : Type ℓ} → Io W A → Io W (Try A)
  attempt m w = (returned (m w).0, (m w).1)

  -- What the code returns, if it returns, has the property `P`.
  abbrev pub Ensures {ℓ} : {A : Type ℓ} → (A → Type 0) → Io W A → Type ℓ
  Ensures P m = (w : W) (a : _) (w' : W) → m w ≡ (returned a, w') → P a

  -- The code does not throw, and what it returns has the property `P`.
  abbrev pub Returns {ℓ} : {A : Type ℓ} → (A → Type 0) → Io W A → Type ℓ
  Returns P m = (w : W) → (a : _) × (w' : W) × (m w ≡ (returned a, w')) × P a

  -- Some call of `m` had the outcome `t`.
  abbrev pub Calls {ℓ} : {A : Type ℓ} → Io W A → Try A → Type ℓ
  Calls m t = (w : W) × (w' : W) × (m w ≡ (t, w'))
