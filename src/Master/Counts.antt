-- ===== src/Master/Counts.antt =====
-- The check `rows.length !== ids.length` that the `create` methods share: it passes only when no id is
-- asked for twice.
use mathlib.Core.Path.{subst}
use inventory_pos.Common.{
  ℕ, suc, ◌≤◌, ◌≡◌, refl, ◌≢◌, Bool, true, false, List, [], ◌∷◌, ◌==◌, length, any, All, arith,
  Bool-cases, inl, inr,
}
use inventory_pos.Common.Table.{Table}
use inventory_pos.Master.{Party, count_found}

-- The table's ids are pairwise different, as the primary key makes them.
abbrev pub IsKeyed : Table Party → Type 0
IsKeyed [] = Unit
IsKeyed ((k, r) ∷ rows) = All (λ (x : ℕ × Party). x.0 ≢ k) rows × IsKeyed rows

-- No id stands twice in the list.
abbrev pub IsDistinct : List ℕ → Type 0
IsDistinct [] = Unit
IsDistinct (i ∷ ids) = (any (λ k. k == i) ids ≡ false) × IsDistinct ids

module _ (p : Party → Bool) where
  absent :
      (i : ℕ) (ids : List ℕ) (rows : Table Party)
      → All (λ (x : ℕ × Party). x.0 ≢ i) rows
      → count_found p (i ∷ ids) rows ≡ count_found p ids rows
  absent i ids [] h = refl
  absent i ids ((k, r) ∷ rows) (ne, h) = ground (arith, absent i ids rows h)

  one_more :
      (i : ℕ) (ids : List ℕ) (rows : Table Party)
      → IsKeyed rows
      → count_found p (i ∷ ids) rows ≤ suc (count_found p ids rows)
  one_more i ids [] h = omega arith
  one_more i ids ((k, r) ∷ rows) (apart, h) = elim (Bool-cases (i == k)) [
    | inl here ↦
        let same : k ≡ i = ground arith in
        let gone =
          absent i ids rows (subst (λ z. All (λ (x : ℕ × Party). x.0 ≢ z) rows) same apart) in
        ground (arith, gone)
    | inr other ↦ ground (arith, one_more i ids rows h)
  ]

  none_found : (rows : Table Party) → count_found p [] rows ≡ 0
  none_found [] = refl
  none_found ((k, r) ∷ rows) = none_found rows

  count_found-length :
      (ids : List ℕ) (rows : Table Party) → IsKeyed rows → count_found p ids rows ≤ length ids
  count_found-length [] rows h = omega (arith, none_found rows)
  count_found-length (i ∷ ids) rows h =
      omega (arith, one_more i ids rows h, count_found-length ids rows h)

  listed :
      (i j : ℕ) (ids : List ℕ)
      → any (λ k. k == i) ids ≡ true
      → (i == j) ≡ true
      → any (λ k. k == j) ids ≡ true
  listed i j [] h e = cc
  listed i j (k ∷ ids) h e = ground (arith, listed i j ids)

  repeated :
      (i : ℕ) (ids : List ℕ) (rows : Table Party)
      → any (λ k. k == i) ids ≡ true
      → count_found p (i ∷ ids) rows ≡ count_found p ids rows
  repeated i ids [] h = refl
  repeated i ids ((k, r) ∷ rows) h = elim (Bool-cases (i == k)) [
    | inl here ↦ ground (arith, repeated i ids rows h, listed i k ids h here)
    | inr other ↦ ground (arith, repeated i ids rows h)
  ]

  pub count_found-IsDistinct :
      (ids : List ℕ) (rows : Table Party)
      → IsKeyed rows
      → count_found p ids rows ≡ length ids
      → IsDistinct ids
  count_found-IsDistinct [] rows h e = tt
  count_found-IsDistinct (i ∷ ids) rows h e = elim (Bool-cases (any (λ k. k == i) ids)) [
    | inl twice ↦
        absurd (omega (arith, repeated i ids rows twice, count_found-length ids rows h, e))
    | inr once ↦ (
      once,
      count_found-IsDistinct ids rows h
          (omega (arith, one_more i ids rows h, count_found-length ids rows h, e)),
    )
  ]
