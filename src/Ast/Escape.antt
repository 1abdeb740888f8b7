-- ===== src/Ast/Escape.antt =====
-- `EscapeString` of ast/compiler.go, against a reader of TypeQL string literals.
use text.Mathlib.TextEquality.{Char-path}
use go_typeql.Base.{
  String, Char, code, ◌<>◌, <>_assoc, nil-<>, cons-<>, ◌≡◌, refl, ap, ap₂, ◌∙◌, sym, Bool, true,
  false, Option, none, some, eqb, eqb_iff, if◌then◌else◌, Bool-cases, inl, inr,
}

-- strings.ReplaceAll(s, old, new), where `old` is one character.
unfoldable pub replace_all : Char → String → String → String
replace_all old new String.[] = ""
replace_all old new (String.◌∷◌ c s) =
    let rest = replace_all old new s in
    if eqb (code c) (code old) then new <> rest else String.◌∷◌ c rest

unfoldable pub escape_string : String → String
unfolding replace_all
escape_string s =
    let s₁ = replace_all "\\" "\\\\" s in
    let s₂ = replace_all "\"" "\\\"" s₁ in
    let s₃ = replace_all "\n" "\\n" s₂ in
    let s₄ = replace_all "\r" "\\r" s₃ in replace_all "\t" "\\t" s₄

-- What one character of a text becomes.
escape_char : Char → String
escape_char c =
    if eqb (code c) b'\\'
    then "\\\\"
    else if eqb (code c) b'"'
    then "\\\""
    else if eqb (code c) 10
    then "\\n"
    else if eqb (code c) 13
    then "\\r"
    else if eqb (code c) 9
    then "\\t"
    else String.◌∷◌ c ""

pub escape_each : String → String
escape_each String.[] = ""
escape_each (String.◌∷◌ c s) = escape_char c <> escape_each s

pub replace_all-<> :
    (old : Char) (new s t : String)
    → replace_all old new (s <> t) ≡ replace_all old new s <> replace_all old new t
unfolding replace_all
replace_all-<> old new String.[] t = simp nil-<>
replace_all-<> old new (String.◌∷◌ c s) t = elim (Bool-cases (eqb (code c) (code old))) [
  | inl e ↦ rw (cons-<>, e, replace_all-<> old new s t) (sym (<>_assoc new _ _))
  | inr e ↦ rw (cons-<>, e, replace_all-<> old new s t) (sym (cons-<> c _ _))
]

escape_string-<> : (s t : String) → escape_string (s <> t) ≡ escape_string s <> escape_string t
unfolding escape_string
escape_string-<> s t = simp replace_all-<>

escape_string_char : (c : Char) → escape_string (String.◌∷◌ c "") ≡ escape_char c
unfolding escape_string replace_all escape_char
escape_string_char c = elim (Bool-cases (eqb (code c) b'\\')) [
  | inl e ↦ rw e
  | inr e₁ ↦ rw e₁ (elim (Bool-cases (eqb (code c) b'"')) [
    | inl e ↦ rw e
    | inr e₂ ↦ rw e₂ (elim (Bool-cases (eqb (code c) 10)) [
      | inl e ↦ rw e
      | inr e₃ ↦ rw e₃ (elim (Bool-cases (eqb (code c) 13)) [
        | inl e ↦ rw e
        | inr e₄ ↦ rw e₄ (elim (Bool-cases (eqb (code c) 9)) [ inl e ↦ rw e | inr e ↦ rw e ])
      ])
    ])
  ])
]

pub cons-as-<> : (c : Char) (s : String) → String.◌∷◌ c s ≡ String.◌∷◌ c "" <> s
cons-as-<> c s = simp (cons-<>, nil-<>)

-- The five passes of `EscapeString` do what one pass over the characters does.
pub escape_string-eq-escape_each : (s : String) → escape_string s ≡ escape_each s
unfolding escape_each
escape_string-eq-escape_each String.[] = unfold escape_string in refl
escape_string-eq-escape_each (String.◌∷◌ c s) =
    ap escape_string (cons-as-<> c s)
    ∙ escape_string-<> (String.◌∷◌ c "") s
    ∙ ap₂ (λ a b. a <> b) (escape_string_char c) (escape_string-eq-escape_each s)

-- The character that an escape stands for in a literal.
pub reveal : Char → Option Char
reveal c =
    if eqb (code c) b'\\'
    then some "\\"
    else if eqb (code c) b'"'
    then some "\""
    else if eqb (code c) b'n'
    then some "\n"
    else if eqb (code c) b'r'
    then some "\r"
    else if eqb (code c) b't'
    then some "\t"
    else none

unfoldable pub prepend : Option Char → Option (String × String) → Option (String × String)
prepend (some c) (some (s, rest)) = some (String.◌∷◌ c s, rest)
prepend _ _ = none

-- What a reader of a string literal does behind the opening quote: the text up to the closing
-- quote, with its escapes resolved, and what follows. The flag says that a backslash was read.
unfoldable pub read_literal : Bool → String → Option (String × String)
unfolding reveal prepend
read_literal escaped String.[] = none
read_literal true (String.◌∷◌ c s) = prepend (reveal c) (read_literal false s)
read_literal false (String.◌∷◌ c s) =
    let escape = read_literal true s in
    let plain = prepend (some c) (read_literal false s) in
    if eqb (code c) b'"' then some ("", s) else if eqb (code c) b'\\' then escape else plain

pub code_eq : (c d : Char) → eqb (code c) (code d) ≡ true → c ≡ d
code_eq c d h = Char-path c d ((eqb_iff (code c) (code d)).0 h)

-- A two-character escape is read as the character that it stands for.
pub read_escape :
    (d c : Char) (s : String)
    → reveal d ≡ some c
    → read_literal false (String.◌∷◌ "\\" (String.◌∷◌ d "") <> s)
      ≡ prepend (some c) (read_literal false s)
unfolding read_literal
read_escape d c s h = rw (cons-<>, cons-<>, nil-<>, h)

-- One escaped character is read back as that character.
read_literal-escape_char :
    (c : Char) (s : String)
    → read_literal false (escape_char c <> s) ≡ prepend (some c) (read_literal false s)
unfolding read_literal escape_char
read_literal-escape_char c s = elim (Bool-cases (eqb (code c) b'\\')) [
  | inl e ↦ rw (code_eq c "\\" e) (read_escape "\\" "\\" s refl)
  | inr e₁ ↦ rw e₁ (elim (Bool-cases (eqb (code c) b'"')) [
    | inl e ↦ rw (code_eq c "\"" e) (read_escape "\"" "\"" s refl)
    | inr e₂ ↦ rw e₂ (elim (Bool-cases (eqb (code c) 10)) [
      | inl e ↦ rw (code_eq c "\n" e) (read_escape "n" "\n" s refl)
      | inr e₃ ↦ rw e₃ (elim (Bool-cases (eqb (code c) 13)) [
        | inl e ↦ rw (code_eq c "\r" e) (read_escape "r" "\r" s refl)
        | inr e₄ ↦ rw e₄ (elim (Bool-cases (eqb (code c) 9)) [
          | inl e ↦ rw (code_eq c "\t" e) (read_escape "t" "\t" s refl)
          | inr e₅ ↦ rw (e₅, cons-<>, nil-<>, e₂, e₁)
        ])
      ])
    ])
  ])
]

read_literal-escape_each :
    (s rest : String) → read_literal false (escape_each s <> ("\"" <> rest)) ≡ some (s, rest)
unfolding escape_each prepend
read_literal-escape_each String.[] rest =
    unfold read_literal in rw (nil-<> ("\"" <> rest), cons-<> "\"" "" rest, nil-<> rest)
read_literal-escape_each (String.◌∷◌ c s) rest =
    rw (<>_assoc, read_literal-escape_char c _, read_literal-escape_each s rest, prepend)

-- Whatever text is escaped and put between quotes, a reader of the literal gets that text back and
-- stops at the closing quote, so no text can end its literal early or change what follows it.
pub read_literal-escape_string :
    (s rest : String) → read_literal false (escape_string s <> ("\"" <> rest)) ≡ some (s, rest)
read_literal-escape_string s rest =
    rw (escape_string-eq-escape_each s) (read_literal-escape_each s rest)
