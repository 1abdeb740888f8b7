-- ===== src/Gotype/Tags/Cardinality.antt =====
-- The cardinality texts of gotype/migrate.go, read by gotype/tags.go.
use go_typeql.Base.{
  String, Char, code, false, ◌&&◌, ◌==◌, eq_iff, ◌<>◌, nil-<>, cons-<>, <>-nil, eqb, ℤ, pos, [],
  ◌∷◌, Option, none, some, Result, ok, err, if◌then◌else◌, itoa, atoi, IsInt, atoi-itoa, Chars,
  itoa-Chars, ◌≡◌, refl, ap, sym, ◌∙◌, inl, inr, arith, Bool-cases, Option-cases, ◌≢◌,
}
use go_typeql.Gotype.Sequential.Model.{is_nil}
use go_typeql.Gotype.Tags.{
  split_dots, strip_plus, parse_cardinality, format_card_string, invalid_max, Bounds, TagError,
}

-- No dot and no plus sign.
abbrev IsPlainChar : Char → Type 0
IsPlainChar c = (eqb (code c) b'.' ≡ false) × (eqb (code c) b'+' ≡ false)

abbrev Plain : String → Type 0
Plain = Chars IsPlainChar

itoa-Plain : (z : ℤ) → Plain (itoa z)
itoa-Plain z = itoa-Chars IsPlainChar (λ c l u. (ground arith, ground arith)) (refl, refl) z

split_dots-Plain : (b : String) → Plain b → split_dots false b ≡ b ∷ []
unfolding split_dots
split_dots-Plain String.[] h = refl
split_dots-Plain (String.◌∷◌ c s) h = rw (split_dots, (h.0).0, split_dots-Plain s h.1) refl

split_dots-range :
    (a b : String) → Plain a → Plain b → split_dots false (a <> (".." <> b)) ≡ a ∷ b ∷ []
unfolding split_dots
split_dots-range String.[] b ha hb =
    rw (nil-<>, cons-<>, cons-<>, nil-<>, split_dots-Plain b hb) refl
split_dots-range (String.◌∷◌ c s) b ha hb =
    rw (cons-<>, (ha.0).0, split_dots-range s b ha.1 hb) refl

-- No text of plain characters and dots ends in a plus sign.
abbrev NoPlus : String → Type 0
NoPlus String.[] = Unit
NoPlus (String.◌∷◌ c s) = (eqb (code c) b'+' ≡ false) × NoPlus s

strip_plus-NoPlus : (s : String) → NoPlus s → strip_plus s ≡ none
unfolding strip_plus
strip_plus-NoPlus String.[] h = refl
strip_plus-NoPlus (String.◌∷◌ c String.[]) h = rw h.0 refl
strip_plus-NoPlus (String.◌∷◌ c (String.◌∷◌ d s)) h =
    rw (strip_plus-NoPlus (String.◌∷◌ d s) h.1) refl

NoPlus-<> : (a b : String) → Plain a → NoPlus b → NoPlus (a <> b)
NoPlus-<> String.[] b ha hb = rw (nil-<> b) hb
NoPlus-<> (String.◌∷◌ c s) b ha hb = rw (cons-<> c s b) ((ha.0).1, NoPlus-<> s b ha.1 hb)

Plain-NoPlus : (a : String) → Plain a → NoPlus a
Plain-NoPlus String.[] h = tt
Plain-NoPlus (String.◌∷◌ c s) h = ((h.0).1, Plain-NoPlus s h.1)

range-NoPlus : (a b : String) → Plain a → Plain b → strip_plus (a <> (".." <> b)) ≡ none
range-NoPlus a b ha hb =
    strip_plus-NoPlus _
      (NoPlus-<> a (".." <> b) ha (rw (cons-<>, cons-<>, nil-<>) (refl, (refl, Plain-NoPlus b hb))))

-- What a range text is read as: its upper end, or none where that is empty.
read_high : ℤ → String → Result TagError Bounds
read_high min high =
    if high == ""
    then ok (some min, none)
    else elim (atoi high) [ none ↦ err invalid_max | some max ↦ ok (some min, some max) ]

parse_cardinality-range :
    (min : ℤ) (low high : String)
    → Plain low
    → Plain high
    → atoi low ≡ some min
    → parse_cardinality (low <> (".." <> high)) ≡ read_high min high
unfolding parse_cardinality read_high
parse_cardinality-range min low high hl hh e =
    rw (parse_cardinality, range-NoPlus low high hl hh, split_dots-range low high hl hh, e)
      (elim (Bool-cases (high == "")) [
        | inl f ↦ rw f refl
        | inr f ↦
            rw f (elim (Option-cases (atoi high)) [ inl g ↦ rw g refl | inr (max, g) ↦ rw g refl ])
      ])

itoa_filled : (z : ℤ) → IsInt z → itoa z == "" ≡ false
unfolding atoi
itoa_filled z h = elim (Bool-cases (itoa z == "")) [
  | inr e ↦ e
  | inl e ↦ absurd (clash (sym (ap atoi ((eq_iff (itoa z) "").0 e)) ∙ atoi-itoa z h))
]
  where
    clash : ◌≢◌ {A = Option ℤ} (atoi "") (some z)
    clash e = cc e

read_high-itoa : (min max : ℤ) → IsInt max → read_high min (itoa max) ≡ ok (some min, some max)
unfolding read_high
read_high-itoa min max h = rw (itoa_filled max h, atoi-itoa max h) refl

abbrev pub IsBound : Option ℤ → Type 0
IsBound none = Unit
IsBound (some z) = IsInt z

-- The lower end that a text without one stands for.
abbrev pub low_end : Option ℤ → ℤ
low_end none = pos 0
low_end (some z) = z

-- The text that `formatCardString` writes for bounds of which at least one is given, each an int, is
-- parsed as these bounds, where a missing lower one has become 0.
pub parse_cardinality-format_card_string :
    (min max : Option ℤ)
    → IsBound min
    → IsBound max
    → is_nil min && is_nil max ≡ false
    → parse_cardinality (format_card_string min max) ≡ ok (some (low_end min), max)
unfolding format_card_string atoi
parse_cardinality-format_card_string none none hm hx h = cc h
parse_cardinality-format_card_string none (some max) hm hx h =
    parse_cardinality-range (pos 0) "0" (itoa max) ((refl, refl), tt) (itoa-Plain max) refl
    ∙ read_high-itoa (pos 0) max hx
parse_cardinality-format_card_string (some min) none hm hx h =
    ap (λ t. parse_cardinality (itoa min <> t)) (sym (<>-nil ".."))
    ∙ parse_cardinality-range min (itoa min) "" (itoa-Plain min) tt (atoi-itoa min hm)
    ∙ unfold read_high in refl
parse_cardinality-format_card_string (some min) (some max) hm hx h =
    parse_cardinality-range min (itoa min) (itoa max) (itoa-Plain min) (itoa-Plain max)
      (atoi-itoa min hm)
    ∙ read_high-itoa min max hx
