-- ===== src/Effect/Laws.antt =====
-- How a run of a chain of steps splits into the runs of its steps (`await` in src/worker).
use larafeed.Prelude.{◌≡◌, refl, ◌∙◌, ap, subst}
use larafeed.Effect.{Try, returned, threw, Io, pure, after, ◌>>=◌, attempt, Ensures, Returns, Calls}

module _ {W : Type 0} {A B : Type 0} where
  after-returned :
      (p : Try A × W) (f : A → Io W B) (b : B) (w' : W)
      → after p f ≡ (returned b, w')
      → (a : A) × (u : W) × (p ≡ (returned a, u)) × (f a u ≡ (returned b, w'))
  after-returned (returned a, u) f b w' h = (a, u, refl, h)
  after-returned (threw c, u) f b w' h = cc

  -- a chain that returns, as the returns of its two steps
  pub bind_returned :
      (m : Io W A) (f : A → Io W B) (w : W) (b : B) (w' : W)
      → (m >>= f) w ≡ (returned b, w')
      → (a : A) × (u : W) × (m w ≡ (returned a, u)) × (f a u ≡ (returned b, w'))
  unfolding ◌>>=◌
  bind_returned m f w b w' h = after-returned (m w) f b w' h

  -- the first step returns, and the chain goes on from there
  pub bind_returns :
      (m : Io W A) (f : A → Io W B) (w : W) (a : A) (u : W)
      → m w ≡ (returned a, u)
      → (m >>= f) w ≡ f a u
  unfolding ◌>>=◌
  bind_returns m f w a u h = ap (λ p. after p f) h

  pub Ensures-bind :
      (P : B → Type 0) (m : Io W A) (f : A → Io W B)
      → ((a : A) → Calls m (returned a) → Ensures P (f a))
      → Ensures P (m >>= f)
  unfolding ◌>>=◌
  Ensures-bind P m f h w b w' e =
      let (a, u, called, rest) = after-returned (m w) f b w' e in h a (w, u, called) u b w' rest

  pub Returns-bind :
      (P : A → Type 0) (Q : B → Type 0) (m : Io W A) (f : A → Io W B)
      → Returns P m
      → ((a : A) → P a → Returns Q (f a))
      → Returns Q (m >>= f)
  unfolding ◌>>=◌
  Returns-bind P Q m f h k w =
      let (a, u, called, p) = h w in
      let (b, v, called', q) = k a p u in (b, v, ap (λ o. after o f) called ∙ called', q)

module _ {W : Type 0} {A : Type 0} where
  pub Returns-attempt : (m : Io W A) → Returns (Calls m) (attempt m)
  unfolding attempt
  Returns-attempt m w = ((m w).0, (m w).1, refl, (w, (m w).1, refl))

  pub Returns-pure : (P : A → Type 0) (a : A) → P a → Returns P (pure {W = W} a)
  unfolding pure
  Returns-pure P a p w = (a, w, refl, p)

  pub pure-returned :
      (a b : A) (w w' : W) → pure {W = W} a w ≡ (returned b, w') → (a ≡ b) × (w ≡ w')
  unfolding pure
  pure-returned a b w w' e = (cc, cc)

  pub pure_returns : (a b : A) (w w' : W) → a ≡ b → w ≡ w' → pure {W = W} a w ≡ (returned b, w')
  unfolding pure
  pure_returns a b w w' e e' = cc

  pub Ensures-pure : (P : A → Type 0) (a : A) → P a → Ensures P (pure {W = W} a)
  Ensures-pure P a p w b w' e = subst P (pure-returned a b w w' e).0 p

  pub Returns-and :
      (P : A → Type 0) (m : Io W A) → Returns (λ _. Unit {0}) m → Ensures P m → Returns P m
  Returns-and P m h k w = let (a, w', e, _) = h w in (a, w', e, k w a w' e)
