-- ===== src/Common/Text.antt =====
-- Texts as lists of code points, with the string functions that the services call.
use Prim.Native.Char.{code}
use Prim.Native.String.{String}
use mathlib.Core.List.{reverse}
use inventory_pos.Common.{
  ℕ, suc, zero, ◌+◌, ◌-◌, ◌*◌, ◌/◌, ◌%◌, ◌<◌, ◌≤◌, ◌≡◌, refl, ◌≢◌, Bool, true, false, ◌||◌, ◌&&◌,
  List, [], ◌∷◌, ◌++◌, ltb, leb, ◌==◌, if◌then◌else◌, Bool-cases, inl, inr, arith, length, All,
  All-append,
}

abbrev pub Text : Type 0
Text = List ℕ

abbrev pub codes : String → Text
codes String.[] = []
codes (String.◌∷◌ c s) = code c ∷ codes s

-- The white space that `trim` removes, within ASCII and the no-break space.
abbrev pub is_space : ℕ → Bool
is_space c = c == 32 || (leb 9 c && leb c 13) || c == 160

abbrev pub trim_start : Text → Text
trim_start [] = []
trim_start (c ∷ s) = if is_space c then trim_start s else c ∷ s

-- `trim()`
unfoldable pub trim : Text → Text
trim s = reverse (trim_start (reverse (trim_start s)))

-- `===` on strings
abbrev pub text_eq : Text → Text → Bool
text_eq [] [] = true
text_eq [] (d ∷ t) = false
text_eq (c ∷ s) [] = false
text_eq (c ∷ s) (d ∷ t) = c == d && text_eq s t

pub text_eq_refl : (s : Text) → text_eq s s ≡ true
text_eq_refl [] = refl
text_eq_refl (c ∷ s) = ground (arith, text_eq_refl s)

pub text_eq_sound : (s t : Text) → text_eq s t ≡ true → s ≡ t
text_eq_sound [] [] h = refl
text_eq_sound [] (d ∷ t) h = cc
text_eq_sound (c ∷ s) [] h = cc
text_eq_sound (c ∷ s) (d ∷ t) h = ground (arith, text_eq_sound s t)

-- `String(n)` of a natural number; `fuel` is at least the number of digits.
digits_from : ℕ → ℕ → Text
digits_from zero n = []
digits_from (suc fuel) n =
    let more = digits_from fuel (n / 10) ++ (48 + n % 10) ∷ [] in
    if ltb n 10 then (48 + n) ∷ [] else more

unfoldable pub decimal : ℕ → Text
unfolding digits_from
decimal n = digits_from (suc n) n

abbrev pub zeros : ℕ → Text
zeros zero = []
zeros (suc k) = 48 ∷ zeros k

-- `padStart(width, '0')`
unfoldable pub pad_start : ℕ → Text → Text
pad_start width s = zeros (width - length s) ++ s

abbrev pub value_from : ℕ → Text → ℕ
value_from acc [] = acc
value_from acc (c ∷ s) = value_from (acc * 10 + (c - 48)) s

-- The number that a text of digits stands for.
abbrev pub value : Text → ℕ
value = value_from 0

value_from-append :
    (acc : ℕ) (s : Text) (c : ℕ) → value_from acc (s ++ c ∷ []) ≡ value_from acc s * 10 + (c - 48)
value_from-append acc [] c = refl
value_from-append acc (d ∷ s) c = value_from-append (acc * 10 + (d - 48)) s c

value-digits_from : (fuel n : ℕ) → n < fuel → value (digits_from fuel n) ≡ n
unfolding digits_from
value-digits_from zero n h = elim h [ ]
value-digits_from (suc fuel) n h = ground (
  arith,
  value_from-append 0 (digits_from fuel (n / 10)) (48 + n % 10),
  value-digits_from fuel (n / 10),
)

value-zeros : (k : ℕ) (s : Text) → value (zeros k ++ s) ≡ value s
value-zeros zero s = refl
value-zeros (suc k) s = value-zeros k s

-- Padding with zeros loses nothing of the number.
pub value-pad_start : (width n : ℕ) → value (pad_start width (decimal n)) ≡ n
unfolding pad_start decimal
value-pad_start width n =
    rw (value-zeros (width - length (digits_from (suc n) n)) (digits_from (suc n) n))
      (value-digits_from (suc n) n (omega arith))

abbrev pub IsDigit : ℕ → Type 0
IsDigit c = (48 ≤ c) × (c ≤ 57)

digits_from-IsDigit : (fuel n : ℕ) → All IsDigit (digits_from fuel n)
unfolding digits_from
digits_from-IsDigit zero n = tt
digits_from-IsDigit (suc fuel) n = elim (Bool-cases (ltb n 10)) [
  | inl small ↦ rw small (ground arith)
  | inr large ↦ rw large (
      All-append IsDigit (digits_from fuel (n / 10)) _ (digits_from-IsDigit fuel (n / 10))
        (omega arith))
]

zeros-IsDigit : (k : ℕ) → All IsDigit (zeros k)
zeros-IsDigit zero = tt
zeros-IsDigit (suc k) = (omega arith, zeros-IsDigit k)

pub decimal-IsDigit : (n : ℕ) → All IsDigit (decimal n)
unfolding decimal
decimal-IsDigit n = digits_from-IsDigit (suc n) n

pub pad_start-IsDigit : (width n : ℕ) → All IsDigit (pad_start width (decimal n))
unfolding pad_start
pad_start-IsDigit width n =
    All-append IsDigit (zeros (width - length (decimal n))) (decimal n)
      (zeros-IsDigit (width - length (decimal n))) (decimal-IsDigit n)

-- A text splits at its first dash in one way.
pub split_at_dash :
    (s t a b : Text)
    → All (λ c. c ≢ 45) s
    → All (λ c. c ≢ 45) t
    → s ++ 45 ∷ a ≡ t ++ 45 ∷ b
    → (s ≡ t) × (a ≡ b)
split_at_dash [] [] a b hs ht e = (refl, cc)
split_at_dash [] (d ∷ t) a b hs ht e = ground arith
split_at_dash (c ∷ s) [] a b hs ht e = ground arith
split_at_dash (c ∷ s) (d ∷ t) a b hs ht e = ground (arith, split_at_dash s t a b hs.1 ht.1)
