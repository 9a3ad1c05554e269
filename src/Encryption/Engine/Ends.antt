-- ===== src/Encryption/Engine/Ends.antt =====
-- Reasoning about the engine's operations, of what their successes leave.
use mathlib.Core.Path.{subst}
use passalong.Prelude.{◌≡◌, refl, ap, Result, ok, err}
use passalong.Store.Errors.{StoreError}
use passalong.Encryption.Engine.{Op, continue, ◌>>=◌, pure, lift}

-- A chain that ends well has a first operation that ends well, and the rest from there.
pub >>=-ok :
    {S A B : Type 0} (m : Op S A) (f : A → Op S B) (s s' : S) (b : B)
    → (m >>= f) s ≡ (ok b, s')
    → (a : A) × (t : S) × (m s ≡ (ok a, t)) × (f a t ≡ (ok b, s'))
unfolding ◌>>=◌
>>=-ok {S} {A} {B} m f s s' b h = go (m s) h refl
  where
    go :
        (r : Result StoreError A × S)
        → continue r f ≡ (ok b, s')
        → m s ≡ r
        → (a : A) × (t : S) × (m s ≡ (ok a, t)) × (f a t ≡ (ok b, s'))
    go (ok a, t) h e = (a, t, e, h)
    go (err x, t) h e = cc (ap (λ p. p.0) h)

-- What a success leaves, from a state with `P`
unfoldable pub Post : {S A : Type 0} → (A → S → Type 0) → Result StoreError A × S → Type 0
Post Q (ok a, s) = Q a s
Post Q (err e, s) = Unit

pub record Ends {S A : Type 0} (P : S → Type 0) (m : Op S A) (Q : A → S → Type 0) : Type 0 where
  pub run : (s : S) → P s → Post Q (m s)

module _ {S A : Type 0} {P : S → Type 0} where
  pub Ends-bind :
      {B : Type 0} {m : Op S A} {f : A → Op S B} {Q : A → S → Type 0} {R : B → S → Type 0}
      → Ends P m Q
      → ((a : A) → Ends (Q a) (f a) R)
      → Ends P (m >>= f) R
  unfolding Post ◌>>=◌
  Ends-bind {B = B} {m = m} {f = f} {Q = Q} {R = R} h k = record {
    run = λ s p. go (m s) (h.run s p);
  }
    where
      go : (r : Result StoreError A × S) → Post Q r → Post R (continue r f)
      go (ok a, s) q = (k a).run s q
      go (err e, s) q = tt

  pub Ends-pure : {Q : A → S → Type 0} (a : A) → ((s : S) → P s → Q a s) → Ends P (pure a) Q
  unfolding Post
  Ends-pure a h = record { run = h }

  pub Ends-lift : (r : Result StoreError A) → Ends P (lift r) (λ a s. P s × (r ≡ ok a))
  unfolding Post
  Ends-lift (ok a) = record { run = λ s p. (p, refl) }
  Ends-lift (err e) = record { run = λ s p. tt }

  -- Of an operation that is looked at by its result
  pub Ends-result :
      {Q : A → S → Type 0} (m : Op S A)
      → ((s t : S) (a : A) → P s → m s ≡ (ok a, t) → Q a t)
      → Ends P m Q
  unfolding Post
  Ends-result {Q = Q} m h = record { run = λ s p. go s p (m s) refl }
    where
      go : (s : S) → P s → (r : Result StoreError A × S) → m s ≡ r → Post Q r
      go s p (ok a, t) e = h s t a p e
      go s p (err x, t) e = tt

  pub Ends-given :
      {X : Type 0} {m : Op S A} {Q : A → S → Type 0} → (X → Ends P m Q) → Ends (λ s. P s × X) m Q
  Ends-given h = record { run = λ s p. (h p.1).run s p.0 }

  pub Ends-weaken :
      {m : Op S A} {Q R : A → S → Type 0}
      → Ends P m Q
      → ((a : A) (s : S) → Q a s → R a s)
      → Ends P m R
  unfolding Post
  Ends-weaken {m = m} {Q = Q} {R = R} h k = record { run = λ s p. go (m s) (h.run s p) }
    where
      go : (r : Result StoreError A × S) → Post Q r → Post R r
      go (ok a, s) q = k a s q
      go (err e, s) q = tt

  pub Ends-ok :
      {m : Op S A} {Q : A → S → Type 0} (s t : S) (a : A)
      → Ends P m Q
      → P s
      → m s ≡ (ok a, t)
      → Q a t
  unfolding Post
  Ends-ok {Q = Q} s t a h p e = subst (Post Q) e (h.run s p)
