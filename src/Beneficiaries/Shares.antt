-- ===== src/Beneficiaries/Shares.antt =====
-- The beneficiary rows stay apart: no two of them share an id, no two of one vault share an address or
-- a share index, and no two share an invitation hash.
use legacylock.Prelude.{
  ℕ, ◌==◌, ◌≡◌, refl, ◌∙◌, Bool, false, not, ◌&&◌, ◌||◌, Option, none, some, List, [], ◌∷◌, ◌++◌,
  str_eq, str_eq_comm, exists, exists-append, filter, save, update_where, arith, inl, inr,
  Bool-cases,
}
use legacylock.Models.{Beneficiary}
use legacylock.Beneficiaries.Rows.{both_equal, same_address, same_share, same_hash}

-- Two rows of one vault with one address or share index, or two rows with one invitation hash.
abbrev pub conflicts : Beneficiary → Beneficiary → Bool
conflicts a b =
    ((a.vault_id == b.vault_id)
      && (str_eq a.email b.email || both_equal a.share_index b.share_index))
    || both_equal a.invitation_hash b.invitation_hash

-- Another row that has a value of this one.
abbrev pub is_rival : Beneficiary → Beneficiary → Bool
is_rival row b = not (b.id == row.id) && conflicts row b

-- Two rows that may not stand beside each other.
abbrev pub clash : Beneficiary → Beneficiary → Bool
clash a b = (b.id == a.id) || conflicts a b

abbrev pub AreApart : List Beneficiary → Type 0
AreApart [] = Unit
AreApart (b ∷ bs) = (exists (clash b) bs ≡ false) × AreApart bs

both_equal_comm : (a b : Option ℕ) → both_equal a b ≡ both_equal b a
both_equal_comm none none = refl
both_equal_comm none (some b) = refl
both_equal_comm (some a) none = refl
both_equal_comm (some a) (some b) = ground arith

pub clash_comm : (a b : Beneficiary) → clash a b ≡ clash b a
clash_comm a b = ground (
  arith,
  str_eq_comm a.email b.email,
  both_equal_comm a.share_index b.share_index,
  both_equal_comm a.invitation_hash b.invitation_hash,
)

-- A row that clashes with none of the others may be added.
pub AreApart-add :
    (bs : List Beneficiary) (row : Beneficiary)
    → AreApart bs
    → exists (clash row) bs ≡ false
    → AreApart (bs ++ row ∷ [])
AreApart-add [] row apart free = (refl, tt)
AreApart-add (b ∷ bs) row apart free = (
  ground (arith, exists-append (clash b) bs (row ∷ []), clash_comm b row, apart.0),
  AreApart-add bs row apart.1 (ground arith),
)

exists-save :
    (p : Beneficiary → Bool) (row : Beneficiary) (bs : List Beneficiary)
    → p row ≡ false
    → exists p bs ≡ false
    → exists p (save (λ (b : Beneficiary). b.id) row bs) ≡ false
unfolding save
exists-save p row [] miss free = ground arith
exists-save p row (b ∷ bs) miss free = ground (arith, exists-save p row bs miss)

-- A row takes the place of the one with its id, if it is no rival of the others.
rival-clash :
    (old row : Beneficiary) (bs : List Beneficiary)
    → old.id ≡ row.id
    → exists (clash old) bs ≡ false
    → exists (is_rival row) bs ≡ false
    → exists (clash row) bs ≡ false
rival-clash old row [] same apart free = refl
rival-clash old row (b ∷ bs) same apart free = ground (arith, rival-clash old row bs same)

pub AreApart-save :
    (bs : List Beneficiary) (row : Beneficiary)
    → AreApart bs
    → exists (is_rival row) bs ≡ false
    → AreApart (save (λ (b : Beneficiary). b.id) row bs)
unfolding save
AreApart-save [] row apart free = (refl, tt)
AreApart-save (b ∷ bs) row apart free = elim (Bool-cases (b.id == row.id)) [
  | inl same ↦ rw same (rival-clash b row bs (ground arith) apart.0 (ground arith), apart.1)
  | inr other ↦ rw other (
    exists-save (clash b) row bs (ground (arith, clash_comm row b)) apart.0,
    AreApart-save bs row apart.1 (ground arith),
  )
]

-- Rows are taken away, or edited in columns that no index reads.
exists-filter :
    (p q : Beneficiary → Bool) (bs : List Beneficiary)
    → exists p bs ≡ false
    → exists p (filter q bs) ≡ false
exists-filter p q [] free = refl
exists-filter p q (b ∷ bs) free = ground (arith, exists-filter p q bs)

pub AreApart-filter :
    (q : Beneficiary → Bool) (bs : List Beneficiary) → AreApart bs → AreApart (filter q bs)
AreApart-filter q [] apart = tt
AreApart-filter q (b ∷ bs) apart = elim (Bool-cases (q b)) [
  | inl e ↦ rw e (exists-filter (clash b) q bs apart.0, AreApart-filter q bs apart.1)
  | inr e ↦ rw e (AreApart-filter q bs apart.1)
]

module _ (p : Beneficiary → Bool) (f : Beneficiary → Beneficiary)
    (kept : (a b : Beneficiary) → (clash (f a) b ≡ clash a b) × (clash a (f b) ≡ clash a b)) where
  exists-clash-update :
      (a : Beneficiary) (bs : List Beneficiary)
      → exists (clash a) (update_where p f bs) ≡ exists (clash a) bs
  exists-clash-update a [] = refl
  exists-clash-update a (b ∷ bs) = elim (Bool-cases (p b)) [
    | inl e ↦ ground (arith, exists-clash-update a bs, (kept a b).1)
    | inr e ↦ ground (arith, exists-clash-update a bs)
  ]

  exists-clash-edit :
      (a : Beneficiary) (bs : List Beneficiary) → exists (clash (f a)) bs ≡ exists (clash a) bs
  exists-clash-edit a [] = refl
  exists-clash-edit a (b ∷ bs) = ground (arith, exists-clash-edit a bs, (kept a b).0)

  pub AreApart-update : (bs : List Beneficiary) → AreApart bs → AreApart (update_where p f bs)
  AreApart-update [] apart = tt
  AreApart-update (b ∷ bs) apart = elim (Bool-cases (p b)) [
    | inl e ↦ rw e (
      exists-clash-update (f b) bs ∙ (exists-clash-edit b bs ∙ apart.0),
      AreApart-update bs apart.1,
    )
    | inr e ↦ rw e (exists-clash-update b bs ∙ apart.0, AreApart-update bs apart.1)
  ]

-- What the three unique constraints exclude, as one test.
pub conflicts-none :
    (row : Beneficiary) (bs : List Beneficiary)
    → exists (same_address row) bs ≡ false
    → exists (same_share row) bs ≡ false
    → exists (same_hash row) bs ≡ false
    → exists (conflicts row) bs ≡ false
conflicts-none row [] a s h = refl
conflicts-none row (b ∷ bs) a s h = ground (arith, conflicts-none row bs)

pub clash-none :
    (row : Beneficiary) (bs : List Beneficiary)
    → exists (λ (b : Beneficiary). b.id == row.id) bs ≡ false
    → exists (conflicts row) bs ≡ false
    → exists (clash row) bs ≡ false
clash-none row [] a c = refl
clash-none row (b ∷ bs) a c = ground (arith, clash-none row bs)

pub rivals-others :
    (row : Beneficiary) (bs : List Beneficiary)
    → exists (conflicts row) (filter (λ (b : Beneficiary). not (b.id == row.id)) bs)
      ≡ exists (is_rival row) bs
rivals-others row [] = refl
rivals-others row (b ∷ bs) = elim (Bool-cases (b.id == row.id)) [
  | inl e ↦ ground (arith, rivals-others row bs)
  | inr e ↦ ground (arith, rivals-others row bs)
]

pub conflicts-free :
    (row : Beneficiary) (bs : List Beneficiary)
    → exists (conflicts row) bs ≡ false
    → (exists (same_address row) bs ≡ false)
      × (exists (same_share row) bs ≡ false)
      × (exists (same_hash row) bs ≡ false)
conflicts-free row [] free = (refl, refl, refl)
conflicts-free row (b ∷ bs) free =
    let (a, s, h) = conflicts-free row bs (ground arith) in
    (ground arith, ground arith, ground arith)
