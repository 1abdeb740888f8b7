-- ===== src/Base/Text.antt =====
-- Go strings as native texts: concatenation, `strings.Join`, and the laws of both.
use Prim.Native.Char.{Char}
use Prim.Native.String
use Prim.Native.String.{String}
use mathlib.Core.Path.{◌≡◌, sym}
use mathlib.Core.List.{List, [], ◌∷◌, ◌++◌}
use text.Mathlib.TextLemmas.{
  append_assoc as text-append_assoc, append-nil as text-append-nil, nil-append as text-nil-append,
  cons-append as text-cons-append,
}

-- Go's `+` on strings, and a write to a strings.Builder.
infixr 65 ◌<>◌
abbrev pub ◌<>◌ : String → String → String
s <> t = String.◌++◌ s t

pub <>_assoc : (s t u : String) → (s <> t) <> u ≡ s <> (t <> u)
<>_assoc = text-append_assoc

pub <>-nil : (s : String) → s <> "" ≡ s
<>-nil = text-append-nil

pub nil-<> : (s : String) → "" <> s ≡ s
nil-<> = text-nil-append

pub cons-<> : (c : Char) (s t : String) → String.◌∷◌ c s <> t ≡ String.◌∷◌ c (s <> t)
cons-<> = text-cons-append

pub ruleset text_laws = (<>_assoc, <>-nil, nil-<>, cons-<>)

-- Every part behind a separator.
unfoldable pub separated : String → List String → String
separated sep [] = ""
separated sep (p ∷ ps) = sep <> (p <> separated sep ps)

pub separated-append :
    (sep : String) (ps qs : List String)
    → separated sep (ps ++ qs) ≡ separated sep ps <> separated sep qs
unfolding separated
separated-append sep [] qs = sym (nil-<> (separated sep qs))
separated-append sep (p ∷ ps) qs = simp (separated-append sep ps qs, <>_assoc)

-- strings.Join(parts, sep).
unfoldable pub join : String → List String → String
unfolding separated
join sep [] = ""
join sep (p ∷ ps) = p <> separated sep ps
