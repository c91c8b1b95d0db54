-- ===== src/Prelude/Table.antt =====
-- A table of the database: a list of rows in insertion order, read and written by a key column.
use Prim.Native.Nat.{ℕ}
use mathlib.Core.Path.{◌≡◌, refl}
use mathlib.Core.Bool.{Bool, true, false}
use mathlib.Core.Option.{Option, none, some}
use mathlib.Core.List.{List, [], ◌∷◌, ◌++◌}
use native.Mathlib.Omega.{arith}
use legacylock.Prelude.Tests.{◌==◌, if◌then◌else◌, Bool-cases}
use legacylock.Prelude.Lists.{exists, All}
use mathlib.Core.Path.{subst}
use mathlib.Core.Logic.{inl, inr}

module _ {A : Type 0} where
  -- `query.filter(p).first()`
  abbrev pub first : (A → Bool) → List A → Option A
  first p [] = none
  first p (x ∷ xs) = if p x then some x else first p xs

  -- `query.filter(p).update(f)`
  abbrev pub update_where : (A → Bool) → (A → A) → List A → List A
  update_where p f [] = []
  update_where p f (x ∷ xs) = (if p x then f x else x) ∷ update_where p f xs

module _ {A : Type 0} (key : A → ℕ) where
  -- The row with the unique key `k`.
  unfoldable pub lookup : ℕ → List A → Option A
  lookup k [] = none
  lookup k (r ∷ rs) = if key r == k then some r else lookup k rs

  -- Write a row back, or add it when its key is new.
  unfoldable pub save : A → List A → List A
  save r [] = r ∷ []
  save r (x ∷ xs) = if key x == key r then r ∷ xs else x ∷ save r xs

  pub lookup-save :
      (r : A) (k : ℕ) (rs : List A)
      → lookup k (save r rs) ≡ (if key r == k then some r else lookup k rs)
  unfolding lookup save
  lookup-save r k [] = refl
  lookup-save r k (x ∷ xs) = ground (arith, lookup-save r k xs)

  -- A found row has the key that it was looked up by.
  pub key-lookup : (k : ℕ) (rs : List A) (r : A) → lookup k rs ≡ some r → key r ≡ k
  unfolding lookup
  key-lookup k [] r h = ground arith
  key-lookup k (x ∷ xs) r h = ground (arith, key-lookup k xs r)

-- What an update makes of a found row.
abbrev pub updated {ℓ} : {A : Type ℓ} → (A → Bool) → (A → A) → Option A → Option A
updated p f none = none
updated p f (some x) = if p x then some (f x) else some x

module _ {A : Type 0} (key : A → ℕ) (p : A → Bool) (f : A → A) where
  -- An update that keeps the keys acts on the row that is looked up.
  pub lookup-update_where :
      (k : ℕ) (rs : List A)
      → ((x : A) → key (f x) ≡ key x)
      → lookup key k (update_where p f rs) ≡ updated p f (lookup key k rs)
  unfolding lookup
  lookup-update_where k [] same = refl
  lookup-update_where k (x ∷ xs) same = elim (Bool-cases (p x)) [
    | inl e ↦ ground (arith, lookup-update_where k xs same, same x)
    | inr e ↦ ground (arith, lookup-update_where k xs same)
  ]

module _ {A : Type 0} (p : A → Bool) (f : A → A) where
  -- Nothing that an update is for is left behind it, if it undoes the test.
  pub exists-update_where :
      (q : A → Bool) (rs : List A)
      → ((x : A) → p x ≡ true → q (f x) ≡ false)
      → ((x : A) → p x ≡ false → q x ≡ false)
      → exists q (update_where p f rs) ≡ false
  exists-update_where q [] gone other = refl
  exists-update_where q (x ∷ xs) gone other = elim (Bool-cases (p x)) [
    | inl e ↦ ground (arith, exists-update_where q xs gone other, gone x e)
    | inr e ↦ ground (arith, exists-update_where q xs gone other, other x e)
  ]

module _ {A : Type 0} (key : A → ℕ) where
  -- Rows are added behind the ones that are there.
  pub lookup-append :
      (k : ℕ) (rs ss : List A) (r : A) → lookup key k rs ≡ some r → lookup key k (rs ++ ss) ≡ some r
  unfolding lookup
  lookup-append k [] ss r h = ground arith
  lookup-append k (x ∷ xs) ss r h = ground (arith, lookup-append k xs ss r)

module _ {κ} {A : Type 0} (P : A → Type κ) where
  -- What holds of all rows holds of the one that a query finds, and of all after a good write.
  pub All-first : (q : A → Bool) (rs : List A) (r : A) → All P rs → first q rs ≡ some r → P r
  All-first q [] r all h = absurd (ground arith)
  All-first q (x ∷ xs) r all h = elim (Bool-cases (q x)) [
    | inl e ↦ (let same : x ≡ r = ground arith in subst P same all.0)
    | inr e ↦ All-first q xs r all.1 (ground arith)
  ]

  pub All-save : (key : A → ℕ) (r : A) (rs : List A) → P r → All P rs → All P (save key r rs)
  unfolding save
  All-save key r [] hr all = (hr, tt)
  All-save key r (x ∷ xs) hr all = elim (Bool-cases (key x == key r)) [
    | inl e ↦ simp e (hr, all.1)
    | inr e ↦ simp e (all.0, All-save key r xs hr all.1)
  ]

-- A found row passes the query's test.
pub first-passes :
    {A : Type 0} (q : A → Bool) (rs : List A) (r : A) → first q rs ≡ some r → q r ≡ true
first-passes q [] r h = absurd (ground arith)
first-passes q (x ∷ xs) r h = elim (Bool-cases (q x)) [
  | inl e ↦ (let same : x ≡ r = ground arith in subst (λ y. q y ≡ true) same e)
  | inr e ↦ first-passes q xs r (ground arith)
]
