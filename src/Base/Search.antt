-- ===== src/Base/Search.antt =====
-- strings.HasPrefix, strings.Contains and strings.ReplaceAll for a pattern that is not empty.
pub mod Laws
use Prim.Native.Nat.{ℕ, ◌+◌}
use Prim.Native.Char.{Char, code}
use Prim.Native.String
use Prim.Native.String.{String}
use mathlib.Core.Bool.{Bool, true, false, ◌&&◌, ◌||◌}
use go_typeql.Base.Tests.{eqb, leb, if◌then◌else◌}
use go_typeql.Base.Text.{◌<>◌}

unfoldable pub has_prefix : String → String → Bool
has_prefix String.[] s = true
has_prefix (String.◌∷◌ p ps) String.[] = false
has_prefix (String.◌∷◌ p ps) (String.◌∷◌ c s) = eqb (code p) (code c) && has_prefix ps s

unfoldable pub occurs : String → String → Bool
unfolding has_prefix
occurs p String.[] = has_prefix p ""
occurs p (String.◌∷◌ c s) = has_prefix p (String.◌∷◌ c s) || occurs p s

abbrev pub tail : String → String
tail String.[] = ""
tail (String.◌∷◌ c s) = s

-- The rest of a match, which the third argument spells, is skipped.
unfoldable pub replace_from : String → String → String → String → String
unfolding has_prefix
replace_from p new skip String.[] = ""
replace_from p new (String.◌∷◌ d skip) (String.◌∷◌ c s) = replace_from p new skip s
replace_from p new String.[] (String.◌∷◌ c s) =
    let replaced = new <> replace_from p new (tail p) s in
    let kept = String.◌∷◌ c (replace_from p new "" s) in
    if has_prefix p (String.◌∷◌ c s) then replaced else kept

unfoldable pub replace_text : String → String → String → String
unfolding replace_from
replace_text p new s = replace_from p new "" s

-- unicode.ToLower on code points, as far as it gives a character of ASCII: the capitals, the dotted capital
-- I and the Kelvin sign. No other letter has its lower case in ASCII, and each stays as it is here.
unfoldable pub lower_code : ℕ → ℕ
lower_code n =
    if leb 65 n && leb n 90
    then n + 32
    else if eqb n 0x130
    then 105
    else if eqb n 0x212a
    then 107
    else n

-- strings.HasPrefix and equality of a text in lower case.
unfoldable pub has_prefix_lower : String → String → Bool
unfolding lower_code
has_prefix_lower String.[] s = true
has_prefix_lower (String.◌∷◌ p ps) String.[] = false
has_prefix_lower (String.◌∷◌ p ps) (String.◌∷◌ c s) =
    eqb (code p) (lower_code (code c)) && has_prefix_lower ps s

unfoldable pub equals_lower : String → String → Bool
unfolding lower_code
equals_lower String.[] String.[] = true
equals_lower String.[] (String.◌∷◌ c s) = false
equals_lower (String.◌∷◌ p ps) String.[] = false
equals_lower (String.◌∷◌ p ps) (String.◌∷◌ c s) =
    eqb (code p) (lower_code (code c)) && equals_lower ps s
