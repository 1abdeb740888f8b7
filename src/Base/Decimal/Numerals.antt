-- ===== src/Base/Decimal/Numerals.antt =====
-- The characters of what `strconv.Itoa` writes.
use Prim.Native.Nat.{ℕ, zero, suc, ◌/◌, ◌%◌, ◌≤◌, ◌<◌}
use Prim.Native.Char.{Char, code}
use Prim.Native.String.{String}
use mathlib.Core.Logic.{inl, inr}
use native.Mathlib.Omega.{arith}
use go_typeql.Base.Tests.{ltb, Bool-cases}
use go_typeql.Base.Int.{ℤ, pos, negsuc}
use go_typeql.Base.Decimal.{digit, digits, show_ℕ, itoa}
use go_typeql.Base.Decimal.RoundTrip.{digit_lem, itoa_pos, itoa_negsuc}

-- `P` holds of every character.
abbrev pub Chars : (Char → Type 0) → String → Type 0
Chars P String.[] = Unit
Chars P (String.◌∷◌ c s) = P c × Chars P s

-- A predicate that holds of the ten digits.
module _ (P : Char → Type 0) (of_digit : (c : Char) → 48 ≤ code c → code c ≤ 57 → P c) where
  digit-P : (d : ℕ) → d < 10 → P (digit d)
  digit-P d h =
      let (ok, value) = digit_lem d h in
      of_digit (digit d) (omega (arith, value)) (omega (arith, value, h))

  digits-Chars : (f n : ℕ) (acc : String) → Chars P acc → Chars P (digits f n acc)
  unfolding digits
  digits-Chars zero n acc h = h
  digits-Chars (suc f) n acc h = elim (Bool-cases (ltb n 10)) [
    | inl e ↦ rw e (digit-P n (ground arith), h)
    | inr e ↦ rw e (digits-Chars f (n / 10) _ (digit-P (n % 10) (omega arith), h))
  ]

  pub itoa-Chars : P "-" → (z : ℤ) → Chars P (itoa z)
  unfolding show_ℕ
  itoa-Chars minus (pos n) = rw (itoa_pos n) (digits-Chars (suc n) n "" tt)
  itoa-Chars minus (negsuc n) = rw (itoa_negsuc n) (minus, digits-Chars (suc (suc n)) (suc n) "" tt)
