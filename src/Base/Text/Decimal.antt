-- ===== src/Base/Text/Decimal.antt =====
-- Two numbers with the same decimal form are equal.
use Prim.Native.Nat.{ℕ, zero, suc, ◌/◌, ◌%◌, ◌<◌, ◌≤◌}
use Prim.Native.String
use Prim.Native.String.{String, count}
use mathlib.Core.Path.{◌≡◌, refl, sym, ap, ◌∙◌}
use mathlib.Core.Logic.{inl, inr}
use mathlib.Core.Bool.{true, false}
use native.Mathlib.Omega.{arith}
use text.Mathlib.TextLemmas.{length-append, append_inj}
use kanhrd.Base.Tests.{ltb, if◌then◌else◌, str_eq, Bool-cases}
use kanhrd.Base.Text.{digit, digits, decimal_from, decimal}

value : String → ℕ
value s =
    if str_eq s "0"
    then 0
    else if str_eq s "1"
    then 1
    else if str_eq s "2"
    then 2
    else if str_eq s "3"
    then 3
    else if str_eq s "4"
    then 4
    else if str_eq s "5"
    then 5
    else if str_eq s "6"
    then 6
    else if str_eq s "7"
    then 7
    else if str_eq s "8"
    then 8
    else 9

value-digit : (d : ℕ) → d < 10 → value (digit d) ≡ d
unfolding value digit digits
value-digit zero h = refl
value-digit (suc zero) h = refl
value-digit (suc (suc zero)) h = refl
value-digit (suc (suc (suc zero))) h = refl
value-digit (suc (suc (suc (suc zero)))) h = refl
value-digit (suc (suc (suc (suc (suc zero))))) h = refl
value-digit (suc (suc (suc (suc (suc (suc zero)))))) h = refl
value-digit (suc (suc (suc (suc (suc (suc (suc zero))))))) h = refl
value-digit (suc (suc (suc (suc (suc (suc (suc (suc zero)))))))) h = refl
value-digit (suc (suc (suc (suc (suc (suc (suc (suc (suc zero))))))))) h = refl
value-digit (suc (suc (suc (suc (suc (suc (suc (suc (suc (suc d)))))))))) h = absurd (omega arith)

count-digit : (d : ℕ) → d < 10 → count (digit d) ≡ 1
unfolding digit digits
count-digit zero h = refl
count-digit (suc zero) h = refl
count-digit (suc (suc zero)) h = refl
count-digit (suc (suc (suc zero))) h = refl
count-digit (suc (suc (suc (suc zero)))) h = refl
count-digit (suc (suc (suc (suc (suc zero))))) h = refl
count-digit (suc (suc (suc (suc (suc (suc zero)))))) h = refl
count-digit (suc (suc (suc (suc (suc (suc (suc zero))))))) h = refl
count-digit (suc (suc (suc (suc (suc (suc (suc (suc zero)))))))) h = refl
count-digit (suc (suc (suc (suc (suc (suc (suc (suc (suc zero))))))))) h = refl
count-digit (suc (suc (suc (suc (suc (suc (suc (suc (suc (suc d)))))))))) h = absurd (omega arith)

digit_injective : (a b : ℕ) → a < 10 → b < 10 → digit a ≡ digit b → a ≡ b
digit_injective a b p q h = sym (value-digit a p) ∙ ap value h ∙ value-digit b q

-- With some fuel the decimal form is not empty.
decimal_from-count : (fuel n : ℕ) → 1 ≤ count (decimal_from (suc fuel) n)
unfolding decimal_from
decimal_from-count fuel n = elim (Bool-cases (ltb n 10)) [
  | inl e ↦ rw e (omega (arith, count-digit n (ground arith)))
  | inr e ↦ rw e (
      omega (
        arith,
        length-append (decimal_from fuel (n / 10)) (digit (n % 10)),
        count-digit (n % 10) (omega arith),
      ))
]

-- What a number of two digits or more looks like.
decimal_from-long :
    (fuel n : ℕ)
    → ltb n 10 ≡ false
    → decimal_from (suc fuel) n ≡ String.◌++◌ (decimal_from fuel (n / 10)) (digit (n % 10))
unfolding decimal_from
decimal_from-long fuel n e = rw e refl

decimal_from-short : (fuel n : ℕ) → ltb n 10 ≡ true → decimal_from (suc fuel) n ≡ digit n
unfolding decimal_from
decimal_from-short fuel n e = rw e refl

-- A long form is longer than a short one.
long-count : (fuel n : ℕ) → ltb n 10 ≡ false → n < suc fuel → 2 ≤ count (decimal_from (suc fuel) n)
long-count zero n e h = absurd (ground arith)
long-count (suc fuel) n e h = rw (decimal_from-long (suc fuel) n e) (
    omega (
      arith,
      length-append (decimal_from (suc fuel) (n / 10)) (digit (n % 10)),
      count-digit (n % 10) (omega arith),
      decimal_from-count fuel (n / 10),
    ))

decimal_from_injective : (f g a b : ℕ) → a < f → b < g → decimal_from f a ≡ decimal_from g b → a ≡ b
decimal_from_injective zero g a b p q h = absurd (omega arith)
decimal_from_injective (suc f) zero a b p q h = absurd (omega arith)
decimal_from_injective (suc f) (suc g) a b p q h = elim (Bool-cases (ltb a 10)) [
  | inl s ↦ elim (Bool-cases (ltb b 10)) [
    | inl t ↦
        digit_injective a b (ground arith) (ground arith)
          (sym (decimal_from-short f a s) ∙ h ∙ decimal_from-short g b t)
    | inr t ↦ absurd (
        omega (
          arith,
          long-count g b t q,
          ap count (sym (decimal_from-short f a s) ∙ h),
          count-digit a (ground arith),
        ))
  ]
  | inr s ↦ elim (Bool-cases (ltb b 10)) [
    | inl t ↦ absurd (
        omega (
          arith,
          long-count f a s p,
          ap count (h ∙ decimal_from-short g b t),
          count-digit b (ground arith),
        ))
    | inr t ↦
        both s t (sym (decimal_from-long f a s) ∙ h ∙ decimal_from-long g b t)
          (λ e. decimal_from_injective f g (a / 10) (b / 10) (ground arith) (ground arith) e)
  ]
]
  where
    both :
        ltb a 10 ≡ false
        → ltb b 10 ≡ false
        → String.◌++◌ (decimal_from f (a / 10)) (digit (a % 10))
          ≡ String.◌++◌ (decimal_from g (b / 10)) (digit (b % 10))
        → (decimal_from f (a / 10) ≡ decimal_from g (b / 10) → a / 10 ≡ b / 10)
        → a ≡ b
    both s t e again =
        let parts = append_inj e (
          omega (
            arith,
            ap count e,
            length-append (decimal_from f (a / 10)) (digit (a % 10)),
            length-append (decimal_from g (b / 10)) (digit (b % 10)),
            count-digit (a % 10) (omega arith),
            count-digit (b % 10) (omega arith),
          )) in
        let high = again parts.0 in
        let low = digit_injective (a % 10) (b % 10) (omega arith) (omega arith) parts.1 in
        omega (arith, high, low)

pub decimal_injective : (a b : ℕ) → decimal a ≡ decimal b → a ≡ b
unfolding decimal
decimal_injective a b h = decimal_from_injective (suc a) (suc b) a b (omega arith) (omega arith) h
