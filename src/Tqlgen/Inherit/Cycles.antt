-- ===== src/Tqlgen/Inherit/Cycles.antt =====
-- tqlgen/model.go: where the parents of a type lead into a cycle, `AccumulateInheritance` does not end.
use go_typeql.Base.{List, ℕ, zero, suc, none, some, Dict, get_elem?, ◌≡◌, refl}
use go_typeql.Tqlgen.Inherit.{Kind, parent_index, accumulate}

-- In a set of types each of which has a parent in the set, no fuel is enough: the recursion that is
-- begun at one of them never returns.
pub accumulate_cycle :
    {T : Type 0} (kind : Kind T) (m : Dict ℕ) (xs : List T) (InCycle : ℕ → Type 0)
    → ((i : ℕ)
        → InCycle i
        → (x : T) × (j : ℕ) × (get_elem? xs i ≡ some x)
          × (parent_index kind m x ≡ some j)
          × InCycle j)
    → (fuel i : ℕ) → InCycle i
    → accumulate kind m fuel i xs ≡ none
unfolding accumulate
accumulate_cycle kind m xs InCycle up zero i c = refl
accumulate_cycle kind m xs InCycle up (suc fuel) i c =
    let (x, j, e, p, c') = up i c in
    rw (accumulate, e) (rw p (rw (accumulate_cycle kind m xs InCycle up fuel j c') refl))
