-- ===== src/Base/Decimal.antt =====
-- The decimal text of a number is made of digits, and determines the number.
use Prim.Native.Nat.{ℕ, zero, suc, ◌+◌, ◌*◌, ◌-◌, ◌/◌, ◌%◌, ◌<◌}
use Prim.Native.Char.{code}
use Prim.Native.String.{String, ◌++◌}
use mathlib.Core.Path.{◌≡◌, refl, sym, ap, ◌∙◌}
use mathlib.Core.Logic.{inl, inr}
use native.Mathlib.Omega.{arith}
use text.Mathlib.TextLemmas.{cons-append, nil-append}
use mathlib.Core.Bool.{Bool, true, ◌&&◌}
use ccmock.Base.Tests.{leb, ltb, Bool-cases}
use ccmock.Base.Text.{decimal, decimal_onto, digit}

-- The number that the digits stand for, behind those that stand for `n`.
abbrev pub value_behind : ℕ → String → ℕ
value_behind n String.[] = n
value_behind n (String.◌∷◌ c s) = value_behind (n * 10 + (code c - b'0')) s

value_behind-append :
    (n : ℕ) (s t : String) → value_behind n (s ++ t) ≡ value_behind (value_behind n s) t
value_behind-append n String.[] t = ap (value_behind n) (nil-append t)
value_behind-append n (String.◌∷◌ c s) t =
    ap (value_behind n) (cons-append c s t) ∙ value_behind-append (n * 10 + (code c - b'0')) s t

value_behind-digit : (n d : ℕ) → d < 10 → value_behind n (digit d) ≡ n * 10 + d
unfolding digit
value_behind-digit n zero h = refl
value_behind-digit n (suc zero) h = refl
value_behind-digit n (suc (suc zero)) h = refl
value_behind-digit n (suc (suc (suc zero))) h = refl
value_behind-digit n (suc (suc (suc (suc zero)))) h = refl
value_behind-digit n (suc (suc (suc (suc (suc zero))))) h = refl
value_behind-digit n (suc (suc (suc (suc (suc (suc zero)))))) h = refl
value_behind-digit n (suc (suc (suc (suc (suc (suc (suc zero))))))) h = refl
value_behind-digit n (suc (suc (suc (suc (suc (suc (suc (suc zero)))))))) h = refl
value_behind-digit n (suc (suc (suc (suc (suc (suc (suc (suc (suc zero))))))))) h = refl
value_behind-digit n (suc (suc (suc (suc (suc (suc (suc (suc (suc (suc d)))))))))) h =
    absurd (omega arith)

value_behind-decimal_onto :
    (f n : ℕ) (s : String) → n < f → value_behind 0 (decimal_onto f n s) ≡ value_behind n s
unfolding decimal_onto
value_behind-decimal_onto zero n s h = absurd (omega arith)
value_behind-decimal_onto (suc f) n s h = elim (Bool-cases (ltb n 10)) [
  | inl e ↦ rw e (
      value_behind-append 0 (digit n) s
      ∙ ap (λ k. value_behind k s) (value_behind-digit 0 n (ground arith) ∙ omega arith))
  | inr e ↦ rw e (
      value_behind-decimal_onto f (n / 10) (digit (n % 10) ++ s) (ground arith)
      ∙ value_behind-append (n / 10) (digit (n % 10)) s
      ∙ ap (λ k. value_behind k s)
          (value_behind-digit (n / 10) (n % 10) (omega arith) ∙ omega arith))
]

pub value_behind-decimal : (n : ℕ) → value_behind 0 (decimal n) ≡ n
unfolding decimal
value_behind-decimal n = value_behind-decimal_onto (suc n) n "" (omega arith)

pub decimal-inj : (m n : ℕ) → decimal m ≡ decimal n → m ≡ n
decimal-inj m n h = sym (value_behind-decimal m) ∙ ap (value_behind 0) h ∙ value_behind-decimal n

abbrev pub are_digits : String → Bool
are_digits String.[] = true
are_digits (String.◌∷◌ c s) = (leb b'0' (code c) && leb (code c) b'9') && are_digits s

are_digits-append :
    (s t : String) → are_digits s ≡ true → are_digits t ≡ true → are_digits (s ++ t) ≡ true
are_digits-append String.[] t e f = ap are_digits (nil-append t) ∙ f
are_digits-append (String.◌∷◌ c s) t e f =
    ap are_digits (cons-append c s t) ∙ ground (arith, are_digits-append s t)

are_digits-digit : (d : ℕ) → d < 10 → are_digits (digit d) ≡ true
unfolding digit
are_digits-digit zero h = refl
are_digits-digit (suc zero) h = refl
are_digits-digit (suc (suc zero)) h = refl
are_digits-digit (suc (suc (suc zero))) h = refl
are_digits-digit (suc (suc (suc (suc zero)))) h = refl
are_digits-digit (suc (suc (suc (suc (suc zero))))) h = refl
are_digits-digit (suc (suc (suc (suc (suc (suc zero)))))) h = refl
are_digits-digit (suc (suc (suc (suc (suc (suc (suc zero))))))) h = refl
are_digits-digit (suc (suc (suc (suc (suc (suc (suc (suc zero)))))))) h = refl
are_digits-digit (suc (suc (suc (suc (suc (suc (suc (suc (suc zero))))))))) h = refl
are_digits-digit (suc (suc (suc (suc (suc (suc (suc (suc (suc (suc d)))))))))) h =
    absurd (omega arith)

are_digits-decimal_onto :
    (f n : ℕ) (s : String) → n < f → are_digits s ≡ true → are_digits (decimal_onto f n s) ≡ true
unfolding decimal_onto
are_digits-decimal_onto zero n s h k = absurd (omega arith)
are_digits-decimal_onto (suc f) n s h k = elim (Bool-cases (ltb n 10)) [
  | inl e ↦ rw e (are_digits-append (digit n) s (are_digits-digit n (ground arith)) k)
  | inr e ↦ rw e (
      are_digits-decimal_onto f (n / 10) (digit (n % 10) ++ s) (ground arith)
        (are_digits-append (digit (n % 10)) s (are_digits-digit (n % 10) (omega arith)) k))
]

pub are_digits-decimal : (n : ℕ) → are_digits (decimal n) ≡ true
unfolding decimal
are_digits-decimal n = are_digits-decimal_onto (suc n) n "" (omega arith) refl
