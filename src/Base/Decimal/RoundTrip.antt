-- ===== src/Base/Decimal/RoundTrip.antt =====
-- `strconv.Atoi` undoes `strconv.Itoa`.
use Prim.Native.Nat.{ℕ, zero, suc, ◌+◌, ◌-◌, ◌*◌, ◌/◌, ◌%◌, ◌≤◌, ◌<◌}
use Prim.Native.Char.{code}
use Prim.Native.String.{String}
use mathlib.Core.Path.{◌≡◌, refl, ap, ◌∙◌}
use mathlib.Core.Logic.{inl, inr}
use mathlib.Core.Bool.{true}
use mathlib.Core.Option.{some}
use native.Mathlib.Omega.{arith}
use go_typeql.Base.Tests.{ltb, Bool-cases}
use go_typeql.Base.Int.{ℤ, pos, negsuc}
use go_typeql.Base.Decimal.{
  digit, digits, show_ℕ, itoa, is_digit, read_digits, read_ℕ, max_int, in_range, negative, atoi,
}

-- The characters of the digits are those that `is_digit` accepts, in order.
pub digit_lem : (d : ℕ) → d < 10 → (is_digit (digit d) ≡ true) × (code (digit d) ≡ d + 48)
unfolding is_digit digit
digit_lem zero h = (refl, omega arith)
digit_lem (suc zero) h = (refl, omega arith)
digit_lem (suc (suc zero)) h = (refl, omega arith)
digit_lem (suc (suc (suc zero))) h = (refl, omega arith)
digit_lem (suc (suc (suc (suc zero)))) h = (refl, omega arith)
digit_lem (suc (suc (suc (suc (suc zero))))) h = (refl, omega arith)
digit_lem (suc (suc (suc (suc (suc (suc zero)))))) h = (refl, omega arith)
digit_lem (suc (suc (suc (suc (suc (suc (suc zero))))))) h = (refl, omega arith)
digit_lem (suc (suc (suc (suc (suc (suc (suc (suc zero)))))))) h = (refl, omega arith)
digit_lem (suc (suc (suc (suc (suc (suc (suc (suc (suc zero))))))))) h = (refl, omega arith)
digit_lem (suc (suc (suc (suc (suc (suc (suc (suc (suc (suc d)))))))))) h = absurd (omega arith)

read_digits-digit :
    (d n : ℕ) (s : String)
    → d < 10
    → read_digits (String.◌∷◌ (digit d) s) n ≡ read_digits s (n * 10 + d)
unfolding read_digits
read_digits-digit d n s h =
    let (accepted, value) = digit_lem d h in
    let same : code (digit d) - 48 ≡ d = omega arith in rw (accepted, same)

read_digits-digits :
    (f n : ℕ) (acc : String) → n < f → read_digits (digits f n acc) 0 ≡ read_digits acc n
unfolding digits
read_digits-digits zero n acc h = absurd (omega arith)
read_digits-digits (suc f) n acc h = elim (Bool-cases (ltb n 10)) [
  | inl e ↦ rw e (read_digits-digit n 0 acc (ground arith) ∙ ap (read_digits acc) (omega arith))
  | inr e ↦ rw e (
      read_digits-digits f (n / 10) _ (ground arith)
      ∙ read_digits-digit (n % 10) (n / 10) acc (omega arith)
      ∙ ap (read_digits acc) (omega arith))
]

abbrev StartsWithDigit : String → Type 0
StartsWithDigit String.[] = ⊥
StartsWithDigit (String.◌∷◌ c s) = is_digit c ≡ true

digits-StartsWithDigit :
    (f n : ℕ) (acc : String) → StartsWithDigit acc → StartsWithDigit (digits f n acc)
unfolding digits
digits-StartsWithDigit zero n acc h = h
digits-StartsWithDigit (suc f) n acc h = elim (Bool-cases (ltb n 10)) [
  | inl e ↦ rw e ((digit_lem n (ground arith)).0)
  | inr e ↦ rw e (digits-StartsWithDigit f (n / 10) _ (digit_lem (n % 10) (omega arith)).0)
]

show_ℕ-StartsWithDigit : (n : ℕ) → StartsWithDigit (show_ℕ n)
unfolding show_ℕ digits
show_ℕ-StartsWithDigit n = elim (Bool-cases (ltb n 10)) [
  | inl e ↦ rw e ((digit_lem n (ground arith)).0)
  | inr e ↦ rw e (digits-StartsWithDigit n (n / 10) _ (digit_lem (n % 10) (omega arith)).0)
]

read_ℕ_of_digit : (s : String) → StartsWithDigit s → read_ℕ s ≡ read_digits s 0
unfolding read_ℕ
read_ℕ_of_digit String.[] h = absurd h
read_ℕ_of_digit (String.◌∷◌ c s) h = refl

read_ℕ-show_ℕ : (n : ℕ) → read_ℕ (show_ℕ n) ≡ some n
unfolding show_ℕ read_digits
read_ℕ-show_ℕ n =
    read_ℕ_of_digit (show_ℕ n) (show_ℕ-StartsWithDigit n)
    ∙ read_digits-digits (suc n) n "" (omega arith)

atoi_of_digit : (s : String) → StartsWithDigit s → atoi s ≡ in_range (read_ℕ s)
unfolding atoi is_digit
atoi_of_digit String.[] h = absurd h
atoi_of_digit (String.◌∷◌ c s) h = ground arith

abbrev pub IsInt : ℤ → Type 0
IsInt (pos n) = n ≤ max_int
IsInt (negsuc n) = n ≤ max_int

pub itoa_pos : (n : ℕ) → itoa (pos n) ≡ show_ℕ n
unfolding itoa
itoa_pos n = refl

pub itoa_negsuc : (n : ℕ) → itoa (negsuc n) ≡ String.◌∷◌ "-" (show_ℕ (suc n))
unfolding itoa
itoa_negsuc n = refl

atoi_minus : (s : String) → atoi (String.◌∷◌ "-" s) ≡ negative (read_ℕ s)
unfolding atoi
atoi_minus s = refl

in_range-some : (n : ℕ) → n ≤ max_int → in_range (some n) ≡ some (pos n)
unfolding in_range
in_range-some n h = ground arith

negative-some : (n : ℕ) → n ≤ max_int → negative (some (suc n)) ≡ some (negsuc n)
unfolding negative
negative-some n h = ground arith

-- Reading back the decimal form of an integer in range gives that integer.
pub atoi-itoa : (z : ℤ) → IsInt z → atoi (itoa z) ≡ some z
atoi-itoa (pos n) h =
    rw (itoa_pos n, atoi_of_digit (show_ℕ n) (show_ℕ-StartsWithDigit n), read_ℕ-show_ℕ n)
      (in_range-some n h)
atoi-itoa (negsuc n) h =
    rw (itoa_negsuc n, atoi_minus (show_ℕ (suc n)), read_ℕ-show_ℕ (suc n)) (negative-some n h)
