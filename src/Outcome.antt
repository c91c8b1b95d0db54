-- ===== src/Outcome.antt =====
-- How a request on a database session ends. The session of a request is one transaction
-- (`get_db` closes it at the end): an exception discards what was not committed, so `err` carries
-- no database. Where the source commits and then raises, the raise is a value of the result.
pub mod Frames
pub mod Totals
use legacylock.Prelude.{ℕ, ◌≡◌, refl, ◌⊎◌, inl, inr, Bool, true, false, Option, none, some}

pub data Error : Type 0 where
  -- `HTTPException(status)`
  http : ℕ → Error
  -- `NoResultFound`, from `.one()`
  no_result : Error
  -- `IntegrityError`, from a unique constraint
  integrity : Error
  -- any other exception, such as `RuntimeError`
  failure : Error

module _ (D : Type 0) where
  pub data Outcome (A : Type 0) : Type 0 where
    ok : A → D → Outcome A
    err : Error → Outcome A

module _ {D A : Type 0} where
  -- What the database holds once the session is closed.
  abbrev pub settle : D → Outcome D A → D
  settle before (ok a after) = after
  settle before (err e) = before

-- A computation in a session: it reads the database as the session sees it.
abbrev pub Tx : Type 0 → Type 0 → Type 0
Tx D A = D → Outcome D A

abbrev pub and_then : {D A B : Type 0} → Outcome D A → (A → Tx D B) → Outcome D B
and_then (ok a d) f = f a d
and_then (err e) f = err e

module _ {D A : Type 0} where
  unfoldable pub pure : A → Tx D A
  pure a d = ok a d

  unfoldable pub raise : Error → Tx D A
  raise e d = err e

  unfoldable pub or_raise : Option A → Error → Tx D A
  or_raise none e d = err e
  or_raise (some a) e d = ok a d

  unfoldable pub gets : (D → A) → Tx D A
  gets f d = ok (f d) d

module _ {D : Type 0} where
  -- `if not test: raise`
  unfoldable pub guard : Bool → Error → Tx D (Unit {0})
  guard true e d = ok tt d
  guard false e d = err e

  unfoldable pub modify : (D → D) → Tx D (Unit {0})
  modify f d = ok tt (f d)

module _ {D A B : Type 0} where
  infixl 5 ◌>>=◌ ◌>>◌
  -- opening this opens the steps above too
  unfoldable pub ◌>>=◌ : Tx D A → (A → Tx D B) → Tx D B
  unfolding pure raise or_raise gets guard modify
  ◌>>=◌ m f d = and_then (m d) f

  abbrev pub ◌>>◌ : Tx D A → Tx D B → Tx D B
  m >> k = m >>= λ _. k

module _ {D A B : Type 0} where
  -- Inversion of a successful sequence.
  pub and_then-eq-ok :
      (o : Outcome D A) (f : A → Tx D B) (b : B) (d : D)
      → and_then o f ≡ ok b d
      → (a : A) × (c : D) × (o ≡ ok a c) × (f a c ≡ ok b d)
  and_then-eq-ok (ok a c) f b d h = (a, c, refl, h)
  and_then-eq-ok (err e) f b d h = cc

module _ {D A : Type 0} where
  pub Outcome-cases :
      (o : Outcome D A) → ((a : A) × (d : D) × (o ≡ ok a d)) ⊎ ((e : Error) × (o ≡ err e))
  Outcome-cases (ok a d) = inl (a, d, refl)
  Outcome-cases (err e) = inr (e, refl)
