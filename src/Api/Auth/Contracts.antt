-- ===== src/Api/Auth/Contracts.antt =====
-- What holds of every result of a step of the middleware, by the steps it is made of, over caches
-- that keep an invariant.
use cf_knowledge_kiln.Base.{
  Bool, true, false, Option, some, if◌then◌else◌, ◌≡◌, refl, ap, subst, none-ne-some, some_inj,
}
use cf_knowledge_kiln.Api.Auth.{Platform, Known, Run, return, raise, ◌>>=◌, >>=-eq-some}

module _ {P : Platform} (I : Known P → Type 0) where
  abbrev pub Ensures : {A : Type 0} → (A → Type 0) → Run P A → Type 0
  Ensures {A} Q m = (k k' : Known P) (a : A) → I k → m k ≡ (some a, k') → Q a × I k'

  -- A step that has ended with this result and these caches.
  pub ended-Ensures :
      {A : Type 0} (Q : A → Type 0) (a b : A) (k k' : Known P)
      → Q a
      → I k
      → Path (Option A × Known P) (some a, k) (some b, k')
      → Q b × I k'
  ended-Ensures {A} Q a b k k' q i h = (
    subst Q (some_inj (ap {A = Option A × Known P} {B = Option A} (λ o. o.0) h)) q,
    subst I (ap {A = Option A × Known P} {B = Known P} (λ o. o.1) h) i,
  )

  pub return-Ensures : {A : Type 0} (Q : A → Type 0) (a : A) → Q a → Ensures Q (return a)
  return-Ensures Q a q k k' b i h = ended-Ensures Q a b k k' q i h

  pub raise-Ensures : {A : Type 0} (Q : A → Type 0) → Ensures Q raise
  raise-Ensures {A} Q k k' b i h =
      absurd (none-ne-some (ap {A = Option A × Known P} {B = Option A} (λ o. o.0) h))

  pub if-Ensures :
      {A : Type 0} (Q : A → Type 0) (b : Bool) (m n : Run P A)
      → (b ≡ true → Ensures Q m)
      → (b ≡ false → Ensures Q n)
      → Ensures Q (if b then m else n)
  if-Ensures Q true m n f g = f refl
  if-Ensures Q false m n f g = g refl

  pub >>=-Ensures :
      {A B : Type 0} (R : A → Type 0) (Q : B → Type 0) (m : Run P A) (f : A → Run P B)
      → Ensures R m
      → ((a : A) → R a → Ensures Q (f a))
      → Ensures Q (m >>= f)
  >>=-Ensures R Q m f hm hf k k' b i h =
      let (a, k₁, first, last) = >>=-eq-some m f k h in
      let (r, i₁) = hm k k₁ a i first in hf a r k₁ k' b i₁ last
