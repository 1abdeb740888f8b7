-- ===== src/Base/Decimal.antt =====
-- `strconv.Itoa` (and `%d`) and `strconv.Atoi`, the latter with its range.
pub mod RoundTrip
pub mod Numerals
use Prim.Native.Nat.{ℕ, zero, suc, ◌+◌, ◌-◌, ◌*◌, ◌/◌, ◌%◌, ◌^◌, ◌≤◌, ◌<◌}
use Prim.Native.Char.{Char, code}
use Prim.Native.String
use Prim.Native.String.{String}
use mathlib.Core.Path.{◌≡◌, refl}
use mathlib.Core.Bool.{Bool, ◌&&◌}
use mathlib.Core.Option.{Option, none, some}
use native.Mathlib.Omega.{arith}
use go_typeql.Base.Tests.{ltb, leb, eqb, if◌then◌else◌, Bool-cases}
use go_typeql.Base.Int.{ℤ, pos, negsuc}

pub digit : ℕ → Char
digit zero = "0"
digit (suc zero) = "1"
digit (suc (suc zero)) = "2"
digit (suc (suc (suc zero))) = "3"
digit (suc (suc (suc (suc zero)))) = "4"
digit (suc (suc (suc (suc (suc zero))))) = "5"
digit (suc (suc (suc (suc (suc (suc zero)))))) = "6"
digit (suc (suc (suc (suc (suc (suc (suc zero))))))) = "7"
digit (suc (suc (suc (suc (suc (suc (suc (suc zero)))))))) = "8"
digit (suc (suc (suc (suc (suc (suc (suc (suc (suc d))))))))) = "9"

-- One more unit of fuel than the number is always enough: each round divides by ten.
digits : ℕ → ℕ → String → String
digits zero n acc = acc
digits (suc f) n acc =
    let rest = digits f (n / 10) (String.◌∷◌ (digit (n % 10)) acc) in
    if ltb n 10 then String.◌∷◌ (digit n) acc else rest

pub show_ℕ : ℕ → String
show_ℕ n = digits (suc n) n ""

unfoldable pub itoa : ℤ → String
unfolding show_ℕ digits digit
itoa (pos n) = show_ℕ n
itoa (negsuc n) = String.◌∷◌ "-" (show_ℕ (suc n))

pub is_digit : Char → Bool
is_digit c = leb b'0' (code c) && leb (code c) b'9'

-- The decimal number that the digits spell behind `n`.
read_digits : String → ℕ → Option ℕ
unfolding is_digit
read_digits String.[] n = some n
read_digits (String.◌∷◌ c s) n =
    let rest = read_digits s (n * 10 + (code c - b'0')) in if is_digit c then rest else none

read_ℕ : String → Option ℕ
unfolding read_digits
read_ℕ String.[] = none
read_ℕ (String.◌∷◌ c s) = read_digits (String.◌∷◌ c s) 0

abbrev pub max_int : ℕ
max_int = 2 ^ 63 - 1

in_range : Option ℕ → Option ℤ
in_range none = none
in_range (some n) = if leb n max_int then some (pos n) else none

negative : Option ℕ → Option ℤ
negative none = none
negative (some zero) = some (pos 0)
negative (some (suc n)) = if leb n max_int then some (negsuc n) else none

-- An optional sign and digits; `none` stands for the error.
unfoldable pub atoi : String → Option ℤ
unfolding in_range negative read_ℕ
atoi String.[] = none
atoi (String.◌∷◌ c s) =
    if eqb (code c) b'-'
    then negative (read_ℕ s)
    else if eqb (code c) b'+'
    then in_range (read_ℕ s)
    else in_range (read_ℕ (String.◌∷◌ c s))
