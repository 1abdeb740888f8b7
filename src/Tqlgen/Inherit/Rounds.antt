-- ===== src/Tqlgen/Inherit/Rounds.antt =====
-- tqlgen/model.go: `AccumulateInheritance` ends where the parents of no type come back to it, and what
-- it leaves is what each type finds in its chain of parents.
use go_typeql.Base.{
  false, List, ℕ, zero, suc, ◌+◌, ◌<◌, ◌≤◌, Option, none, some, Dict, get_elem?, set, get_elem?-set,
  eqb, eqb_iff, ◌≡◌, refl, sym, ap, ap₂, subst, ◌∙◌, ◌⊎◌, inl, inr, Bool-cases, Option-cases, arith,
}
use mathlib.Core.Option
use go_typeql.Tqlgen.Merge.Laws.{or_else}
use go_typeql.Tqlgen.Inherit.{Kind, parent_index, merge_at, accumulate, accumulate_each}

or_else-none : {A : Type 0} (a : Option A) → or_else a none ≡ a
or_else-none none = refl
or_else-none (some x) = refl

or_else_again : {A : Type 0} (a b : Option A) → or_else (or_else a b) b ≡ or_else a b
or_else_again none none = refl
or_else_again none (some y) = refl
or_else_again (some x) b = refl

-- What a type finds first in itself and its chain of parents, of the schema as it was parsed.
module _ {T C : Type 0} (kind : Kind T) (look : T → Option C) (m : Dict ℕ) (xs : List T) where
  pub inherited : ℕ → ℕ → Option C
  inherited zero i = none
  inherited (suc fuel) i = elim (get_elem? xs i) [
    | none ↦ none
    | some x ↦ elim (parent_index kind m x) [
      | none ↦ look x
      | some j ↦ or_else (look x) (inherited fuel j)
    ]
  ]

  inherited_missing : (f i : ℕ) → get_elem? xs i ≡ none → inherited f i ≡ none
  unfolding inherited
  inherited_missing zero i e = refl
  inherited_missing (suc f) i e = ground arith

  inherited_top :
      (f i : ℕ) (x : T)
      → get_elem? xs i ≡ some x
      → parent_index kind m x ≡ none
      → inherited (suc f) i ≡ look x
  unfolding inherited
  inherited_top f i x e top = rw (inherited, e) (rw top refl)

  inherited_step :
      (f i j : ℕ) (x : T)
      → get_elem? xs i ≡ some x
      → parent_index kind m x ≡ some j
      → inherited (suc f) i ≡ or_else (look x) (inherited f j)
  unfolding inherited
  inherited_step f i j x e below = rw (inherited, e) (rw below refl)

-- `rank` falls from each type to its parent.
module _ {T C : Type 0} (kind : Kind T) (look : T → Option C)
    (look-inherit : (p x : T) → look (kind.inherit p x) ≡ or_else (look x) (look p))
    (parent-inherit : (p x : T) → kind.parent (kind.inherit p x) ≡ kind.parent x) (m : Dict ℕ)
    (xs : List T) (rank : ℕ → ℕ)
    (falls : (i j : ℕ) (x : T)
      → get_elem? xs i ≡ some x
      → parent_index kind m x ≡ some j
      → rank j < rank i) where
  pub inherited_enough :
      (f g i : ℕ)
      → rank i < f
      → rank i < g
      → inherited kind look m xs f i ≡ inherited kind look m xs g i
  inherited_enough zero g i h k = absurd (omega arith)
  inherited_enough (suc f) zero i h k = absurd (omega arith)
  inherited_enough (suc f) (suc g) i h k = elim (Option-cases (get_elem? xs i)) [
    | inl e ↦
        inherited_missing kind look m xs (suc f) i e
        ∙ sym (inherited_missing kind look m xs (suc g) i e)
    | inr (x, e) ↦ elim (Option-cases (parent_index kind m x)) [
      | inl top ↦
          inherited_top kind look m xs f i x e top ∙ sym (inherited_top kind look m xs g i x e top)
      | inr (j, up) ↦
          let below = falls i j x e up in
          inherited_step kind look m xs f i j x e up
          ∙ (ap (or_else (look x)) (inherited_enough f g j (omega arith) (omega arith))
              ∙ sym (inherited_step kind look m xs g i j x e up))
    ]
  ]

  abbrev pub found : ℕ → Option C
  found i = inherited kind look m xs (suc (rank i)) i

  found_step :
      (i j : ℕ) (x : T)
      → get_elem? xs i ≡ some x
      → parent_index kind m x ≡ some j
      → found i ≡ or_else (look x) (found j)
  found_step i j x e up =
      inherited_step kind look m xs (rank i) i j x e up
      ∙ ap (or_else (look x))
          (inherited_enough (rank i) (suc (rank j)) j (falls i j x e up) (omega arith))

  -- An element of the changed list beside the one that it was: its parent is the same, and what is
  -- looked for in it is what it was or what is found in its chain.
  pub data Entry (ys : List T) (i : ℕ) : Type 0 where
    missing : get_elem? xs i ≡ none → get_elem? ys i ≡ none → Entry ys i
    there :
        (x y : T)
        → get_elem? xs i ≡ some x
        → get_elem? ys i ≡ some y
        → kind.parent y ≡ kind.parent x
        → (look y ≡ look x) ⊎ (look y ≡ found i)
        → Entry ys i

  abbrev pub Kept : List T → Type 0
  Kept ys = (i : ℕ) → Entry ys i

  abbrev pub Done : List T → ℕ → Type 0
  Done ys i = Option.map look (get_elem? ys i) ≡ Option.map (λ (x : T). found i) (get_elem? xs i)

  -- The parent's entry, where it has been settled.
  settled :
      {ys : List T} {j : ℕ} (y : T)
      → get_elem? ys j ≡ some y
      → Entry ys j
      → Done ys j
      → look y ≡ found j
  settled y e (missing none_ none') done = cc
  settled y e (there x y' ex ey p l) done = cc (rw (e, ex) at done)

  -- What a run makes of a list: it settles the type and, of the others, unsettles none.
  abbrev Settles : ℕ → List T → List T → Type 0
  Settles i ys zs = Kept zs × Done zs i × ((k : ℕ) → Done ys k → Done zs k)

  -- The write of a child beside its settled parent.
  module _ {ys : List T} (kept : Kept ys) (i j : ℕ) (x : T) (e : get_elem? xs i ≡ some x)
      (up : parent_index kind m x ≡ some j) (done : Done ys j) where
    merged-look :
        (p y : T)
        → (look y ≡ look x) ⊎ (look y ≡ found i)
        → look p ≡ found j
        → look (kind.inherit p y) ≡ found i
    merged-look p y (inl old) same =
        look-inherit p y ∙ (ap₂ or_else old same ∙ sym (found_step i j x e up))
    merged-look p y (inr new) same =
        let step = found_step i j x e up in
        look-inherit p y
        ∙ (ap₂ or_else (new ∙ step) same ∙ (or_else_again (look x) (found j) ∙ sym step))

    alone :
        (y : T) → (look y ≡ look x) ⊎ (look y ≡ found i) → get_elem? xs j ≡ none → look y ≡ found i
    alone y (inr new) gone = new
    alone y (inl old) gone =
        let nothing = inherited_missing kind look m xs (suc (rank j)) j gone in
        old ∙ sym (found_step i j x e up ∙ (ap (or_else (look x)) nothing ∙ or_else-none (look x)))

    module _ (y : T) (ey : get_elem? ys i ≡ some y) (py : kind.parent y ≡ kind.parent x) (new : T)
        (pn : kind.parent new ≡ kind.parent y) (ln : look new ≡ found i) where
      read_here : get_elem? (set ys i new) i ≡ some new
      read_here = get_elem?-set ys i i new ∙ ground (arith, eqb_iff i i)

      read_else : (k : ℕ) → eqb i k ≡ false → get_elem? (set ys i new) k ≡ get_elem? ys k
      read_else k apart = get_elem?-set ys i k new ∙ rw apart refl

      set-Done : Done (set ys i new) i
      set-Done = rw (read_here, e) (ap some ln)

      set-Entry : (k : ℕ) → Entry (set ys i new) k
      set-Entry k = elim (Bool-cases (eqb i k)) [
        | inl same ↦
            subst (Entry (set ys i new)) ((eqb_iff i k).0 same)
              (there x new e read_here (pn ∙ py) (inr ln))
        | inr apart ↦ elim (kept k) [
          | missing a b ↦ missing a (read_else k apart ∙ b)
          | there x' y' a b p l ↦ there x' y' a (read_else k apart ∙ b) p l
        ]
      ]

      set-Settles : Settles i ys (set ys i new)
      set-Settles = (
        set-Entry,
        set-Done,
        λ k was. elim (Bool-cases (eqb i k)) [
          | inl same ↦ subst (Done (set ys i new)) ((eqb_iff i k).0 same) set-Done
          | inr apart ↦ ap (Option.map look) (read_else k apart) ∙ was
        ],
      )

    merge_at-Settles : Settles i ys (merge_at kind m j i ys)
    unfolding merge_at
    merge_at-Settles = elim (kept i) [
      | missing a b ↦ absurd (cc)
      | there x' y ex ey py either ↦
          let same : x' ≡ x = cc in
          let either' : (look y ≡ look x) ⊎ (look y ≡ found i) =
            subst (λ t. (look y ≡ look t) ⊎ (look y ≡ found i)) same either in
          elim (kept j) [
            | missing none_ none' ↦
                rw (merge_at, ey)
                  (rw none' (kept, rw (ey, e) (ap some (alone y either' none_)), λ k was. was))
            | there xj yj exj eyj pj lj ↦
                rw (merge_at, ey)
                  (rw eyj (
                    set-Settles y ey (py ∙ ap (λ t. kind.parent t) same) (kind.inherit yj y)
                      (parent-inherit yj y)
                      (merged-look yj y either' (settled yj eyj (kept j) done))))
          ]
    ]

  accumulate-Settles :
      (fuel i : ℕ) (ys : List T)
      → rank i < fuel
      → Kept ys
      → (zs : List T) × (accumulate kind m fuel i ys ≡ some zs) × Settles i ys zs
  unfolding accumulate
  accumulate-Settles zero i ys h kept = absurd (omega arith)
  accumulate-Settles (suc fuel) i ys h kept = elim (kept i) [
    | missing a b ↦ (ys, rw (accumulate, b) refl, (kept, rw (a, b) refl, λ k was. was))
    | there x y ex ey py either ↦
        let same : parent_index kind m y ≡ parent_index kind m x = rw py refl in
        elim (Option-cases (parent_index kind m x)) [
          | inl top ↦
              let own = inherited_top kind look m xs (rank i) i x ex top in
              let look_y : look y ≡ found i = elim either [
                | inl old ↦ old ∙ sym own
                | inr new ↦ new
              ] in
              (
                ys,
                rw (accumulate, ey) (rw (same ∙ top) refl),
                (kept, rw (ex, ey) (ap some look_y), λ k was. was),
              )
          | inr (j, up) ↦
              let below = falls i j x ex up in
              let (zs, ends, later) = accumulate-Settles fuel j ys (omega arith) kept in
              let (kept'', done', others') = merge_at-Settles later.0 i j x ex up later.1 in
              (
                merge_at kind m j i zs,
                rw (accumulate, ey) (rw (same ∙ up) (rw ends refl)),
                (kept'', done', λ k was. others' k (later.2 k was)),
              )
        ]
  ]

  -- The loop settles every element from its index on.
  pub accumulate_each-Settles :
      (rounds fuel i : ℕ) (ys : List T)
      → ((k : ℕ) → rank k < fuel)
      → Kept ys
      → (zs : List T) × (accumulate_each kind m rounds fuel i ys ≡ some zs)
        × ((k : ℕ) → Done ys k ⊎ ((i ≤ k) × (k < i + rounds)) → Done zs k)
  unfolding accumulate_each
  accumulate_each-Settles zero fuel i ys h kept =
      (ys, refl, λ k either. elim either [ inl was ↦ was | inr within ↦ absurd (omega arith) ])
  accumulate_each-Settles (suc rounds) fuel i ys h kept =
      let (ws, first, settles) = accumulate-Settles fuel i ys (h i) kept in
      let (zs, rest, done) = accumulate_each-Settles rounds fuel (i + 1) ws h settles.0 in
      (
        zs,
        rw first rest,
        λ k either. done k (elim either [
          | inl was ↦ inl (settles.2 k was)
          | inr within ↦ elim (Bool-cases (eqb i k)) [
            | inl same ↦ inl (subst (Done ws) ((eqb_iff i k).0 same) settles.1)
            | inr apart ↦ inr (ground arith)
          ]
        ]),
      )

  pub Kept-self : Kept xs
  Kept-self i = elim (Option-cases (get_elem? xs i)) [
    | inl e ↦ missing e e
    | inr (x, e) ↦ there x x e e refl (inl refl)
  ]
