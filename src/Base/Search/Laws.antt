-- ===== src/Base/Search/Laws.antt =====
-- Where a text can occur: behind a first character that stands nowhere else in it.
use Prim.Native.Char.{Char, code}
use Prim.Native.String.{String}
use mathlib.Core.Path.{◌≡◌, refl, ap, ◌∙◌}
use mathlib.Core.Logic.{inl, inr}
use mathlib.Core.Bool.{Bool, true, false, ◌&&◌}
use native.Mathlib.Omega.{arith}
use go_typeql.Base.Tests.{eqb, eqb_iff, if◌then◌else◌, Bool-cases}
use go_typeql.Base.Text.{◌<>◌, cons-<>, nil-<>}
use go_typeql.Base.Search.{has_prefix, occurs, replace_from, replace_text}

-- The character stands nowhere in the text.
abbrev pub lacks : Char → String → Bool
lacks h String.[] = true
lacks h (String.◌∷◌ c s) = if eqb (code h) (code c) then false else lacks h s

pub lacks-<> : (h : Char) (s t : String) → lacks h (s <> t) ≡ (lacks h s && lacks h t)
lacks-<> h String.[] t = rw nil-<>
lacks-<> h (String.◌∷◌ c s) t = rw cons-<> (ground (arith, lacks-<> h s t))

-- A prefix without `h` does not reach beyond an `h`.
pub has_prefix_stop :
    (h : Char) (p s t : String)
    → lacks h p ≡ true
    → has_prefix p (s <> String.◌∷◌ h t) ≡ has_prefix p s
unfolding has_prefix
has_prefix_stop h String.[] s t out = refl
has_prefix_stop h (String.◌∷◌ d p) String.[] t out =
    rw nil-<> (ground (arith, eqb_iff (code h) (code d), eqb_iff (code d) (code h)))
has_prefix_stop h (String.◌∷◌ d p) (String.◌∷◌ c s) t out =
    rw cons-<> (ground (arith, has_prefix_stop h p s t))

-- No occurrence crosses a character that the pattern lacks.
pub occurs-<>_stop :
    (h : Char) (d : Char) (p s t : String)
    → lacks h (String.◌∷◌ d p) ≡ true
    → occurs (String.◌∷◌ d p) s ≡ false
    → occurs (String.◌∷◌ d p) t ≡ false
    → occurs (String.◌∷◌ d p) (s <> String.◌∷◌ h t) ≡ false
unfolding occurs
occurs-<>_stop h d p String.[] t out left right =
    rw nil-<> (
      ground
        (arith, ap (λ b. b) (rw nil-<> at (has_prefix_stop h (String.◌∷◌ d p) "" t out)), left))
occurs-<>_stop h d p (String.◌∷◌ c s) t out left right = rw cons-<> (
    ground (
      arith,
      rw cons-<> at (has_prefix_stop h (String.◌∷◌ d p) (String.◌∷◌ c s) t out),
      occurs-<>_stop h d p s t out,
    ))

-- No occurrence begins in a text that lacks the pattern's first character.
pub occurs-<>_lacks :
    (h : Char) (p q t : String)
    → lacks h q ≡ true
    → occurs (String.◌∷◌ h p) (q <> t) ≡ occurs (String.◌∷◌ h p) t
unfolding occurs has_prefix
occurs-<>_lacks h p String.[] t out = rw nil-<>
occurs-<>_lacks h p (String.◌∷◌ c q) t out = rw cons-<> (ground (arith, occurs-<>_lacks h p q t))

occurs-cons :
    (h : Char) (p : String) (c : Char) (s t : String)
    → has_prefix (String.◌∷◌ h p) (String.◌∷◌ c s) ≡ false
    → has_prefix p t ≡ has_prefix p s
    → occurs (String.◌∷◌ h p) t ≡ false
    → occurs (String.◌∷◌ h p) (String.◌∷◌ c t) ≡ false
unfolding occurs has_prefix
occurs-cons h p c s t first same later = ground arith

-- Every occurrence of a pattern is replaced by a text that begins with the same character `h`, which
-- stands nowhere else in either; and what stands behind it there is no beginning of the pattern.
module _ (h : Char) (p q : String) (once : lacks h p ≡ true) (once' : lacks h q ≡ true)
    (apart : (t : String) → has_prefix p (q <> t) ≡ false) where
  abbrev replaced : String → String → String
  replaced skip s = replace_from (String.◌∷◌ h p) (String.◌∷◌ h q) skip s

  has_prefix-replaced :
      (w s : String) → lacks h w ≡ true → has_prefix w (replaced "" s) ≡ has_prefix w s
  unfolding has_prefix replace_from
  has_prefix-replaced String.[] s out = refl
  has_prefix-replaced (String.◌∷◌ d w) String.[] out = refl
  has_prefix-replaced (String.◌∷◌ d w) (String.◌∷◌ c s) out =
      elim (Bool-cases (has_prefix (String.◌∷◌ h p) (String.◌∷◌ c s))) [
        | inl e ↦
            rw (e, cons-<>)
              (ground (
                arith,
                e,
                eqb_iff (code h) (code c),
                eqb_iff (code h) (code d),
                eqb_iff (code d) (code h),
                eqb_iff (code d) (code c),
              ))
        | inr e ↦ rw e (ground (arith, has_prefix-replaced w s))
      ]

  occurs-replaced : (skip s : String) → occurs (String.◌∷◌ h p) (replaced skip s) ≡ false
  unfolding occurs replace_from
  occurs-replaced skip String.[] = unfold has_prefix in refl
  occurs-replaced (String.◌∷◌ d skip) (String.◌∷◌ c s) = occurs-replaced skip s
  occurs-replaced String.[] (String.◌∷◌ c s) =
      elim (Bool-cases (has_prefix (String.◌∷◌ h p) (String.◌∷◌ c s))) [
        | inl e ↦
            rw (e, cons-<>)
              (let behind = occurs-<>_lacks h p q (replaced p s) once' ∙ occurs-replaced p s in
                let first = apart (replaced p s) in unfold has_prefix in ground arith)
        | inr e ↦ rw e (
            occurs-cons h p c s (replaced "" s) e (has_prefix-replaced p s once)
              (occurs-replaced "" s))
      ]

  pub occurs-replace_text :
      (s : String)
      → occurs (String.◌∷◌ h p) (replace_text (String.◌∷◌ h p) (String.◌∷◌ h q) s) ≡ false
  unfolding replace_text
  occurs-replace_text s = occurs-replaced "" s
