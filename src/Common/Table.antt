-- ===== src/Common/Table.antt =====
-- A database table keyed by its ids, newest row first.
use mathlib.Core.Path.{subst}
use mathlib.Core.Option.{some-injective}
use inventory_pos.Common.{
  All, Bool-cases, inl, inr, ℕ, ◌≡◌, refl, sym, ◌∙◌, ◌≢◌, ◌⊎◌, Bool, Option, none, some, List, [],
  ◌∷◌, arith, ◌==◌, if◌then◌else◌,
}

abbrev pub Table : Type 0 → Type 0
Table R = List (ℕ × R)

module _ {R : Type 0} where
  -- `findUnique({ where: { id } })`
  abbrev pub find_unique : ℕ → Table R → Option R
  find_unique k [] = none
  find_unique k ((j, r) ∷ t) = if k == j then some r else find_unique k t

  -- `update({ where: { id }, data })`
  abbrev pub update : ℕ → (R → R) → Table R → Table R
  update k f [] = []
  update k f ((j, r) ∷ t) = if k == j then (j, f r) ∷ t else (j, r) ∷ update k f t

  -- `findFirst({ where })`
  abbrev pub find_first : (R → Bool) → Table R → Option (ℕ × R)
  find_first p [] = none
  find_first p ((j, r) ∷ t) = if p r then some (j, r) else find_first p t

  -- `findMany({ where })`
  abbrev pub find_many : (R → Bool) → Table R → List R
  find_many p [] = []
  find_many p ((j, r) ∷ t) = if p r then r ∷ find_many p t else find_many p t

  pub find_unique-update_self :
      (k : ℕ) (f : R → R) {r : R} (t : Table R)
      → find_unique k t ≡ some r
      → find_unique k (update k f t) ≡ some (f r)
  find_unique-update_self k f {r} [] e = cc
  find_unique-update_self k f {r} (x ∷ t) e = ground (arith, find_unique-update_self k f {r = r} t)

  pub find_unique-update_ne :
      (j k : ℕ) (f : R → R) (t : Table R) → j ≢ k → find_unique j (update k f t) ≡ find_unique j t
  find_unique-update_ne j k f [] h = refl
  find_unique-update_ne j k f (x ∷ t) h = ground (arith, find_unique-update_ne j k f t h)

  -- A change of one row, by what it makes of the row that is there.
  pub update-const :
      (k : ℕ) (f : R → R) (r : R) (t : Table R)
      → find_unique k t ≡ some r
      → update k f t ≡ update k (λ _. f r) t
  update-const k f r [] e = refl
  update-const k f r (x ∷ t) e = ground (arith, update-const k f r t)

  -- A property of every row is kept by a change that keeps it at the row that is found.
  pub All-update {κ} :
      (P : R → Type κ) (k : ℕ) (f : R → R) (t : Table R)
      → All (λ (x : ℕ × R). P x.1) t
      → ((r : R) → find_unique k t ≡ some r → P r → P (f r))
      → All (λ (x : ℕ × R). P x.1) (update k f t)
  All-update P k f [] h step = tt
  All-update P k f ((j, r) ∷ t) (h, hs) step = elim (Bool-cases (k == j)) [
    | inl here ↦ rw here (step r (rw here) h, hs)
    | inr later ↦ rw later (h, All-update P k f t hs (λ q e. step q (rw later e)))
  ]

  pub All-find_unique {κ} :
      (P : R → Type κ) (k : ℕ) {r : R} (t : Table R)
      → All (λ (x : ℕ × R). P x.1) t
      → find_unique k t ≡ some r
      → P r
  All-find_unique P k [] h e = cc
  All-find_unique P k {r} ((j, q) ∷ t) (h, hs) e = elim (Bool-cases (k == j)) [
    | inl here ↦ subst P (some-injective _ _ (rw here at e)) h
    | inr later ↦ All-find_unique P k {r = r} t hs (rw later at e)
  ]

  find_unique-update-none :
      (k : ℕ) (f : R → R) (t : Table R)
      → find_unique k t ≡ none
      → find_unique k (update k f t) ≡ none
  find_unique-update-none k f [] e = refl
  find_unique-update-none k f (x ∷ t) e = ground (arith, find_unique-update-none k f t)

  -- Where a row of a changed table comes from.
  pub find_unique-update_inv :
      (j k : ℕ) (f : R → R) (t : Table R) {r : R}
      → find_unique j (update k f t) ≡ some r
      → ((j ≢ k) × (find_unique j t ≡ some r))
        ⊎ ((j ≡ k) × ((q : R) × (find_unique k t ≡ some q) × (r ≡ f q)))
  find_unique-update_inv j k f t {r} e = elim (Bool-cases (j == k)) [
    | inl same ↦
        let here : j ≡ k = ground arith in inr (here, origin (find_unique k t) refl (rw here at e))
    | inr other ↦
        let apart : j ≢ k = ground arith in
        inl (apart, sym (find_unique-update_ne j k f t apart) ∙ e)
  ]
    where
      origin :
          (o : Option R)
          → find_unique k t ≡ o
          → find_unique k (update k f t) ≡ some r
          → (q : R) × (find_unique k t ≡ some q) × (r ≡ f q)
      origin none found h = cc (rw (find_unique-update-none k f t found) at h)
      origin (some q) found h =
          (q, found, some-injective _ _ (sym h ∙ find_unique-update_self k f t found))
