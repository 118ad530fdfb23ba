-- ===== src/Numbering/Unique.antt =====
-- No document number is given out twice, whatever the database queries of numbering.service.ts do.
use inventory_pos.Common.{
  ℕ, zero, suc, ◌+◌, ◌≤◌, ◌<◌, ◌≡◌, refl, ◌≢◌, sym, ap, ◌∙◌, List, [], ◌∷◌, arith, All,
}
use inventory_pos.Common.Effects.{Result, ok, err}
use inventory_pos.Common.Text.{Text, text_eq_refl, IsDigit}
use inventory_pos.Numbering.{
  DocumentType, prefix, Day, build_period, format_document_number, Sequences, last_value_of, upsert,
  Outcome, row, refused, lost, atomic_increment, attempt_from, generate,
}
use inventory_pos.Numbering.Format.{format_document_number-injective, build_period-IsDigit}

-- An upsert raises its own counter by one.
pub last_value_of-upsert_self :
    (p q : Text) (s : Sequences) → last_value_of p q (upsert p q s) ≡ last_value_of p q s + 1
last_value_of-upsert_self p q [] = ground (arith, text_eq_refl p, text_eq_refl q)
last_value_of-upsert_self p q (x ∷ s) = ground (arith, last_value_of-upsert_self p q s)

-- It lowers no counter.
pub last_value_of-upsert_mono :
    (a b p q : Text) (s : Sequences) → last_value_of a b s ≤ last_value_of a b (upsert p q s)
last_value_of-upsert_mono a b p q [] = omega arith
last_value_of-upsert_mono a b p q (x ∷ s) = ground (arith, last_value_of-upsert_mono a b p q s)

-- What a call from the counters `s` gives out: a number above the counter, where it stands after.
abbrev pub Issues : DocumentType → Text → Sequences → Result Text × Sequences → Type 0
Issues t p s (ok x, s') =
    (n : ℕ) × (x ≡ format_document_number t p n)
    × (last_value_of (prefix t) p s < n)
    × (last_value_of (prefix t) p s' ≡ n)
Issues t p s (err e, s') = Unit

Issues-weaken :
    (t : DocumentType) (p : Text) (s u : Sequences) (r : Result Text × Sequences)
    → last_value_of (prefix t) p s ≤ last_value_of (prefix t) p u
    → Issues t p u r
    → Issues t p s r
Issues-weaken t p s u (ok x, s') h (n, form, above, at) = (n, form, omega arith, at)
Issues-weaken t p s u (err e, s') h i = tt

attempt_from_mono :
    (db : ℕ → Outcome) (t : DocumentType) (p : Text) (left k : ℕ) (s : Sequences) (a b : Text)
    → last_value_of a b s ≤ last_value_of a b (attempt_from db t p left k s).1
unfolding attempt_from
attempt_from_mono db t p zero k s a b = omega arith
attempt_from_mono db t p (suc left) k s a b = ground (
  arith,
  last_value_of-upsert_mono a b (prefix t) p s,
  attempt_from_mono db t p left (k + 1) s a b,
  attempt_from_mono db t p left (k + 1) (upsert (prefix t) p s) a b,
)

attempt_from-Issues :
    (db : ℕ → Outcome) (t : DocumentType) (p : Text) (left k : ℕ) (s : Sequences)
    → Issues t p s (attempt_from db t p left k s)
unfolding attempt_from
attempt_from-Issues db t p zero k s = tt
attempt_from-Issues db t p (suc left) k s =
    by_outcome (db k) (attempt_from-Issues db t p left (k + 1))
  where
    by_outcome :
        (o : Outcome)
        → ((s' : Sequences) → Issues t p s' (attempt_from db t p left (k + 1) s'))
        → Issues t p s (
            let (r, s') = atomic_increment o (prefix t) p s in
            let retry = attempt_from db t p left (k + 1) s' in
            elim r [ ok seq ↦ (ok (format_document_number t p seq), s') | err e ↦ retry ])
    by_outcome row ih = (
      last_value_of (prefix t) p (upsert (prefix t) p s),
      refl,
      omega (arith, last_value_of-upsert_self (prefix t) p s),
      refl,
    )
    by_outcome refused ih = ih s
    by_outcome lost ih =
        Issues-weaken t p s (upsert (prefix t) p s) _
          (last_value_of-upsert_mono (prefix t) p (prefix t) p s) (ih (upsert (prefix t) p s))

-- A request for a number: how the queries of its attempts end, the type and the date.
pub record Request : Type 0 where
  pub db : ℕ → Outcome
  pub type : DocumentType
  pub date : Day

-- The numbers that a row of requests gives out; one that throws gives none.
abbrev pub collect : Result Text → List Text → List Text
collect (ok x) xs = x ∷ xs
collect (err e) xs = xs

unfoldable pub issued : List Request → Sequences → List Text
unfolding generate
issued [] s = []
issued (q ∷ qs) s = let (r, s') = generate q.db q.type q.date s in collect r (issued qs s')

-- No two of the texts are the same.
abbrev pub Distinct : List Text → Type 0
Distinct [] = Unit
Distinct (x ∷ xs) = All (λ y. x ≢ y) xs × Distinct xs

-- A number that was given out from the counters `s`.
abbrev GivenFrom : Sequences → Text → Type 0
GivenFrom s x =
    (t : DocumentType) × (p : Text) × (n : ℕ) × All IsDigit p
    × (x ≡ format_document_number t p n)
    × (last_value_of (prefix t) p s < n)

All-GivenFrom :
    (s u : Sequences) (xs : List Text)
    → ((p q : Text) → last_value_of p q s ≤ last_value_of p q u)
    → All (GivenFrom u) xs
    → All (GivenFrom s) xs
All-GivenFrom s u [] grow h = tt
All-GivenFrom s u (x ∷ xs) grow ((t, p, n, digits, form, above), h) =
    let low = grow (prefix t) p in
    ((t, p, n, digits, form, omega arith), All-GivenFrom s u xs grow h)

-- What is given out later differs from a number that the counter has reached.
differ :
    (t : DocumentType) (p : Text) (n : ℕ) (s : Sequences) (xs : List Text) {x : Text}
    → All IsDigit p
    → x ≡ format_document_number t p n
    → n ≤ last_value_of (prefix t) p s
    → All (GivenFrom s) xs
    → All (λ y. x ≢ y) xs
differ t p n s [] digits form reached h = tt
differ t p n s (y ∷ ys) digits form reached ((u, q, m, other, form', above), h) = (
  λ same.
      let (et, ep, en) =
        format_document_number-injective t u p q n m digits other (sym form ∙ same ∙ form') in
      let counters : last_value_of (prefix t) p s ≡ last_value_of (prefix u) q s =
        cc (ap prefix et, ep) in
      omega arith,
  differ t p n s ys digits form reached h,
)

collect-Distinct :
    (t : DocumentType) (p : Text) (s s' : Sequences) (r : Result Text) (xs : List Text)
    → All IsDigit p
    → Issues t p s (r, s')
    → ((a b : Text) → last_value_of a b s ≤ last_value_of a b s')
    → All (GivenFrom s') xs
    → Distinct xs
    → All (GivenFrom s) (collect r xs) × Distinct (collect r xs)
collect-Distinct t p s s' (ok x) xs digits (n, form, above, reached) grow given apart = (
  ((t, p, n, digits, form, above), All-GivenFrom s s' xs grow given),
  (differ t p n s' xs digits form (omega arith) given, apart),
)
collect-Distinct t p s s' (err e) xs digits i grow given apart =
    (All-GivenFrom s s' xs grow given, apart)

issued-GivenFrom :
    (qs : List Request) (s : Sequences) → All (GivenFrom s) (issued qs s) × Distinct (issued qs s)
unfolding issued
issued-GivenFrom [] s = (tt, tt)
issued-GivenFrom (q ∷ qs) s =
    let p = build_period q.type q.date in
    let out = attempt_from q.db q.type p 3 1 s in
    let (given, apart) = issued-GivenFrom qs out.1 in
    collect-Distinct q.type p s out.1 out.0 (issued qs out.1) (build_period-IsDigit q.type q.date)
      (attempt_from-Issues q.db q.type p 3 1 s) (attempt_from_mono q.db q.type p 3 1 s) given apart

-- Over any row of requests, whatever types and dates they ask for and however their queries end, the
-- numbers given out are pairwise different texts.
pub issued-Distinct : (qs : List Request) (s : Sequences) → Distinct (issued qs s)
issued-Distinct qs s = (issued-GivenFrom qs s).1
