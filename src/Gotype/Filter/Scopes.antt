-- ===== src/Gotype/Filter/Scopes.antt =====
-- gotype/filter.go: the scopes of Not and Or. A text is free of a variable's attributes where no
-- `$<variable>__` occurs in it.
use go_typeql.Base.{String, Char, code, true, false, ◌∷◌, ℕ, pos, itoa, ◌≡◌, ◌<>◌, occurs, eqb}
use go_typeql.Base.Search.Laws.{lacks}
use go_typeql.Gotype.Filter.{Filter, or_, not_}

-- A variable's name: no dollar sign, space or semicolon stands in it.
pub record IsName (v : String) : Type 0 where
  pub dollar : lacks "$" v ≡ true
  pub space : lacks " " v ≡ true
  pub semicolon : lacks ";" v ≡ true

abbrev pub attributes_of : String → String
attributes_of v = String.◌∷◌ "$" (v <> "__")

abbrev pub IsFree : String → String → Type 0
IsFree v s = occurs (attributes_of v) s ≡ false

module _ (v : String) (named : IsName v) where
  -- A scope's letter is neither a dollar sign nor an underscore.
  module _ (letter : Char) (sign : eqb 36 (code letter) ≡ false)
      (line : eqb 95 (code letter) ≡ false) where
    scoped : ℕ → String
    scoped n = v <> ("_" <> (String.◌∷◌ letter "" <> itoa (pos n)))

-- A negation or an alternative of filters.
abbrev pub OpensScope : Filter → Type 0
OpensScope (not_ f) = Unit
OpensScope (or_ fs) = Unit
OpensScope _ = ⊥
