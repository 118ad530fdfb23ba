-- ===== src/Common/Double.antt =====
-- JavaScript's numbers, as far as amounts of money need them: doubles, as whole numbers of 2^-59. That
-- is the last place of the doubles next to a cent, so every double from a cent on is one, and so is
-- every sum and difference of such doubles before it is rounded.
use inventory_pos.Common.{
  ℕ, zero, suc, ◌+◌, ◌*◌, ◌/◌, ◌%◌, ◌^◌, ◌<◌, true, false, List, [], ◌∷◌, arith, ltb, if◌then◌else◌,
  Bool-cases, inl, inr,
}
use inventory_pos.Common.Int.{ℤ, pos_part, neg_part, sub_ℕ, abs, ◌+ℤ◌, ◌-ℤ◌}

abbrev pub Double : Type 0
Double = ℤ

abbrev pub unit : ℕ
unit = 576_460_752_303_423_488

-- The first number of 54 bits.
abbrev limit : ℕ
limit = 9_007_199_254_740_992

-- The power of two by which a number has to be divided to have 53 bits.
unfoldable last_place : (halvings : ℕ) → ℕ → ℕ
last_place zero x = 1
last_place (suc n) x = elim (ltb x limit) [ true ↦ 1 | false ↦ 2 * last_place n (x / 2) ]

-- Division to the nearest whole number, a tie to the even one.
unfoldable divide_to_even : ℕ → ℕ → ℕ
divide_to_even n d =
    let q = n / d in
    let twice = 2 * (n % d) in if ltb twice d then q else if ltb d twice then q + 1 else q + q % 2

-- The double next to a fraction. Amounts have 18 digits, so 128 halvings are more than are needed.
unfoldable nearest : ℕ → ℕ → ℕ
unfolding last_place divide_to_even
nearest n d = let place = last_place 128 (n / d) in divide_to_even n (d * place) * place

-- `Number(amount)` for an amount in hundredths.
unfoldable pub number : ℤ → Double
unfolding nearest
number a = sub_ℕ (nearest (pos_part a * unit) 100) (nearest (neg_part a * unit) 100)

abbrev rounded : ℤ → Double
rounded a = sub_ℕ (nearest (pos_part a) 1) (nearest (neg_part a) 1)

unfoldable pub plus : Double → Double → Double
unfolding nearest ◌+ℤ◌
plus a b = rounded (a +ℤ b)

unfoldable pub minus : Double → Double → Double
unfolding nearest ◌-ℤ◌
minus a b = rounded (a -ℤ b)

-- The literal 0.01.
unfoldable pub cent : ℕ
unfolding nearest
cent = nearest unit 100

-- `Math.abs(Number(a) - Number(b))`
unfoldable pub distance : ℤ → ℤ → ℕ
unfolding number minus
distance a b = abs (minus (number a) (number b))

-- `reduce((sum, x) => sum + x, start)`
unfoldable pub sum_from : Double → List Double → Double
unfolding plus
sum_from start [] = start
sum_from start (x ∷ xs) = sum_from (plus start x) xs

-- With halvings enough for the number of bits, 53 are left.
last_place-fits : (n x : ℕ) → x < limit * 2 ^ n → x < limit * last_place n x
unfolding last_place
last_place-fits zero x h = omega arith
last_place-fits (suc n) x h = elim (Bool-cases (ltb x limit)) [
  | inl small ↦ rw (small, last_place) (ground arith)
  | inr large ↦
      let half : x / 2 < limit * 2 ^ n = ground (arith, h) in
      let next = last_place-fits n (x / 2) half in rw (large, last_place) (omega (arith, next))
]
