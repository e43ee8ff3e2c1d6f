-- ===== src/Base/Text/Split.antt =====
-- A text with a colon in it is read in one way as what is before its last colon and what is behind it;
-- the decimal form of a number has none.
use Prim.Native.String
use Prim.Native.String.append
use Prim.Native.Char.{code}
use Prim.Native.String.{String}
use Prim.Native.Nat.{ℕ, zero, suc, ◌/◌, ◌%◌}
use mathlib.Core.Path.{◌≡◌, refl, sym, ap, ◌∙◌, subst}
use mathlib.Core.Logic.{inl, inr}
use mathlib.Core.Bool.{false}
use native.Mathlib.Omega.{arith}
use text.Mathlib.TextLemmas.{append_cancel_left, head-eq_of_cons-eq, tail-eq_of_cons-eq}
use kanhrd.Base.Tests.{◌==◌, ltb, Bool-cases}
use kanhrd.Base.Text.{digit, digits, decimal_from, decimal}

-- No code point of the text is a colon.
abbrev pub HasNoColon : String → Type 0
HasNoColon String.[] = Unit
HasNoColon (String.◌∷◌ c s) = ((code c == 58) ≡ false) × HasNoColon s

HasNoColon-append : (s t : String) → HasNoColon s → HasNoColon t → HasNoColon (String.◌++◌ s t)
HasNoColon-append String.[] t h k = subst HasNoColon (sym (append.nil t)) k
HasNoColon-append (String.◌∷◌ c s) t h k =
    subst HasNoColon (sym (append.cons c s t)) (h.0, HasNoColon-append s t h.1 k)

colon_cons : (d : String) → String.◌++◌ ":" d ≡ String.◌∷◌ ":" d
colon_cons d = append.cons ":" "" d ∙ ap (λ x. String.◌∷◌ ":" x) (append.nil d)

colon_inside : (h d : String) → HasNoColon (String.◌++◌ h (String.◌++◌ ":" d)) → ⊥
colon_inside String.[] d n =
    let (first, rest) = subst HasNoColon (append.nil (String.◌++◌ ":" d) ∙ colon_cons d) n in
    ground (arith, first)
colon_inside (String.◌∷◌ c h) d n =
    colon_inside h d (subst HasNoColon (append.cons c h (String.◌++◌ ":" d)) n).1

pub split_last :
    (h k d e : String)
    → HasNoColon d
    → HasNoColon e
    → String.◌++◌ h (String.◌++◌ ":" d) ≡ String.◌++◌ k (String.◌++◌ ":" e)
    → (h ≡ k) × (d ≡ e)
split_last String.[] String.[] d e n m p =
    (refl, append_cancel_left ":" d e (append_cancel_left "" _ _ p))
split_last String.[] (String.◌∷◌ c k) d e n m p = absurd (
    colon_inside k e (
      subst HasNoColon
        (tail-eq_of_cons-eq (
          sym (colon_cons d)
          ∙ sym (append.nil (String.◌++◌ ":" d))
          ∙ p
          ∙ append.cons c k (String.◌++◌ ":" e)))
        n))
split_last (String.◌∷◌ c h) String.[] d e n m p = absurd (
    colon_inside h d (
      subst HasNoColon
        (tail-eq_of_cons-eq (
          sym (colon_cons e)
          ∙ sym (append.nil (String.◌++◌ ":" e))
          ∙ sym p
          ∙ append.cons c h (String.◌++◌ ":" d)))
        m))
split_last (String.◌∷◌ c h) (String.◌∷◌ b k) d e n m p =
    let both =
      sym (append.cons c h (String.◌++◌ ":" d)) ∙ p ∙ append.cons b k (String.◌++◌ ":" e) in
    let (front, back) = split_last h k d e n m (tail-eq_of_cons-eq both) in
    (ap (λ x. String.◌∷◌ x h) (head-eq_of_cons-eq both) ∙ ap (λ x. String.◌∷◌ b x) front, back)

digit-HasNoColon : (n : ℕ) → HasNoColon (digit n)
unfolding digit digits
digit-HasNoColon zero = (refl, tt)
digit-HasNoColon (suc zero) = (refl, tt)
digit-HasNoColon (suc (suc zero)) = (refl, tt)
digit-HasNoColon (suc (suc (suc zero))) = (refl, tt)
digit-HasNoColon (suc (suc (suc (suc zero)))) = (refl, tt)
digit-HasNoColon (suc (suc (suc (suc (suc zero))))) = (refl, tt)
digit-HasNoColon (suc (suc (suc (suc (suc (suc zero)))))) = (refl, tt)
digit-HasNoColon (suc (suc (suc (suc (suc (suc (suc zero))))))) = (refl, tt)
digit-HasNoColon (suc (suc (suc (suc (suc (suc (suc (suc zero)))))))) = (refl, tt)
digit-HasNoColon (suc (suc (suc (suc (suc (suc (suc (suc (suc zero))))))))) = (refl, tt)
digit-HasNoColon (suc (suc (suc (suc (suc (suc (suc (suc (suc (suc n)))))))))) = tt

decimal_from-HasNoColon : (fuel n : ℕ) → HasNoColon (decimal_from fuel n)
unfolding decimal_from
decimal_from-HasNoColon zero n = tt
decimal_from-HasNoColon (suc fuel) n = elim (Bool-cases (ltb n 10)) [
  | inl e ↦ rw e (digit-HasNoColon n)
  | inr e ↦ rw e (
      HasNoColon-append (decimal_from fuel (n / 10)) (digit (n % 10))
        (decimal_from-HasNoColon fuel (n / 10)) (digit-HasNoColon (n % 10)))
]

pub decimal-HasNoColon : (n : ℕ) → HasNoColon (decimal n)
unfolding decimal
decimal-HasNoColon n = decimal_from-HasNoColon (suc n) n
