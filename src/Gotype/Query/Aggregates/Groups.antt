-- ===== src/Gotype/Query/Aggregates/Groups.antt =====
-- gotype/query.go: the attributes that a grouped query binds.
use go_typeql.Base.{
  lookup-insert_cases, String, true, false, List, [], ◌∷◌, ◌++◌, map, map-append, ℕ, none, some, ok,
  ◌>>=◌, ◌<>◌, ◌==◌, ◌||◌, join, Dict, lookup, insert, lookup-insert_self, contains,
  contains-append, Distinct, All, ◌≡◌, refl, sym, ap, subst, ◌∙◌, inl, inr, arith, eq_iff,
  Bool-cases, Option-cases,
}
use go_typeql.Gotype.Models.{ModelInfo}
use go_typeql.Gotype.Filter.{Filters, all_patterns, attr_var, has_pattern, sanitize_var}
use go_typeql.Gotype.Query.Aggregates.{
  AggregateSpec, match_lines, assignment, result_key, bind_attrs, or_empty, group_reduce,
  group_text,
}

abbrev var_of : String → String
var_of = attr_var "e"

-- What the loop keeps: the names of its lines are distinct, the grouping attribute is among them, and each
-- variable it knows is that of its attribute, which has a line; a name it does not know yet has none,
-- but for the grouping attribute.
record Bound (group_by : String) (names : List String) (vars : Dict String) : Type 0 where
  distinct : Distinct names
  grouped : contains names group_by ≡ true
  known : (k v : String) → lookup k vars ≡ some v → (v ≡ var_of k) × (contains names k ≡ true)
  unknown : (k : String) → lookup k vars ≡ none → contains names k ≡ true → k ≡ group_by

Distinct-append :
    (js : List String) (k : String) → Distinct js → contains js k ≡ false → Distinct (js ++ k ∷ [])
Distinct-append [] k d h = (refl, tt)
Distinct-append (j ∷ js) k (fresh, d) h = (
  ground (arith, contains-append js (k ∷ []) j, eq_iff j k, eq_iff k j),
  Distinct-append js k d (ground arith),
)

-- An attribute that has a line by now is entered.
Bound-insert :
    (group_by : String) (names names' : List String) (vars : Dict String) (k : String)
    → Bound group_by names vars
    → Distinct names'
    → ((j : String) → contains names j ≡ true → contains names' j ≡ true)
    → ((j : String) → contains names' j ≡ true → k == j ≡ false → contains names j ≡ true)
    → contains names' k ≡ true
    → Bound group_by names' (insert k (var_of k) vars)
Bound-insert group_by names names' vars k b d wider only here = record {
  distinct = d;
  grouped = wider group_by b.grouped;
  known = λ j v h. elim (lookup-insert_cases k j (var_of k) vars) [
    | inl (e, found) ↦
        let same : v ≡ var_of k = cc in
        (subst (λ i. v ≡ var_of i) e same, subst (λ i. contains names' i ≡ true) e here)
    | inr (e, found) ↦ let (is, has) = b.known j v (sym found ∙ h) in (is, wider j has)
  ];
  unknown = λ j h has. elim (lookup-insert_cases k j (var_of k) vars) [
    | inl (e, found) ↦ absurd (cc)
    | inr (e, found) ↦ b.unknown j (sym found ∙ h) (only j has e)
  ];
}

-- What the loop makes of its lines and variables.
record Looped (group_by : String) (names : List String) (vars : Dict String)
    (specs : List AggregateSpec) (result : List String × Dict String) : Type 0 where
  all_names : List String
  all_distinct : Distinct all_names
  wider : (k : String) → contains names k ≡ true → contains all_names k ≡ true
  only :
      (k : String)
      → contains all_names k ≡ true
      → contains (names ++ map (λ s. AggregateSpec.attr s) specs) k ≡ true
  lines : result.0 ≡ map (has_pattern "e") all_names
  kept : (k v : String) → lookup k vars ≡ some v → lookup k result.1 ≡ some (var_of k)
  found :
      All (λ s. lookup (AggregateSpec.attr s) result.1 ≡ some (var_of (AggregateSpec.attr s))) specs
  bound : All (λ s. contains all_names (AggregateSpec.attr s) ≡ true) specs

-- The loop behind a step that has widened the names and the variables.
Looped-step :
    (group_by : String) (names names' : List String) (vars vars' : Dict String) (s : AggregateSpec)
    (ss : List AggregateSpec) (result : List String × Dict String)
    → ((k : String) → contains names k ≡ true → contains names' k ≡ true)
    → ((k : String) → contains names' k ≡ true → contains names k || s.attr == k ≡ true)
    → ((k v : String) → lookup k vars ≡ some v → (v' : String) × (lookup k vars' ≡ some v'))
    → (v : String) → lookup s.attr vars' ≡ some v
    → contains names' s.attr ≡ true
    → Looped group_by names' vars' ss result
    → Looped group_by names vars (s ∷ ss) result
Looped-step group_by names names' vars vars' s ss result wider only keeps v here has l = record {
  all_names = l.all_names;
  all_distinct = l.all_distinct;
  wider = λ k h. l.wider k (wider k h);
  only = λ k h.
      let attrs = map (λ t. AggregateSpec.attr t) ss in
      ground (
        arith,
        l.only k h,
        only k,
        contains-append names' attrs k,
        contains-append names (s.attr ∷ attrs) k,
      );
  lines = l.lines;
  kept = λ k v h. let (v', h') = keeps k v h in l.kept k v' h';
  found = (l.kept s.attr v here, l.found);
  bound = (l.wider s.attr has, l.bound);
}

insert-keeps :
    (at new : String) (vars : Dict String) (k v : String)
    → lookup k vars ≡ some v
    → (v' : String) × (lookup k (insert at new vars) ≡ some v')
insert-keeps at new vars k v h = elim (lookup-insert_cases at k new vars) [
  | inl (_, found) ↦ (new, found)
  | inr (_, found) ↦ (v, found ∙ h)
]

bind_attrs-Looped :
    (group_by : String) (names : List String) (vars : Dict String) (specs : List AggregateSpec)
    → Bound group_by names vars
    → Looped group_by names vars specs
        (bind_attrs group_by specs (map (has_pattern "e") names) vars)
unfolding bind_attrs
bind_attrs-Looped group_by names vars [] b = record {
  all_names = names;
  all_distinct = b.distinct;
  wider = λ k h. h;
  only = λ k h. ground (arith, contains-append names [] k);
  lines = refl;
  kept = λ k v h. h ∙ ap some (b.known k v h).0;
  found = tt;
  bound = tt;
}
bind_attrs-Looped group_by names vars (s ∷ ss) b = elim (Bool-cases (s.attr == group_by)) [
  | inl e ↦
      let is : s.attr ≡ group_by = ground (arith, eq_iff s.attr group_by) in
      let vars' = insert s.attr (var_of s.attr) vars in
      let has : contains names s.attr ≡ true = rw is b.grouped in
      let step =
        Bound-insert group_by names names vars s.attr b b.distinct (λ j h. h) (λ j h _. h) has in
      let behind =
        Looped-step group_by names names vars vars' s ss _ (λ k h. h) (λ k h. ground arith)
          (insert-keeps s.attr (var_of s.attr) vars) (var_of s.attr)
          (lookup-insert_self s.attr (var_of s.attr) vars) has
          (bind_attrs-Looped group_by names vars' ss step) in
      rw (bind_attrs, e)
        (subst
          (λ g.
            Looped group_by names vars (s ∷ ss) (
              bind_attrs group_by ss (map (has_pattern "e") names) (insert s.attr (var_of g) vars)))
          is behind)
  | inr e ↦ elim (Option-cases (lookup s.attr vars)) [
    | inr (v, l) ↦
        rw (bind_attrs, e, l)
          (Looped-step group_by names names vars vars s ss _ (λ k h. h) (λ k h. ground arith)
            (λ k u h. (u, h)) v l (b.known s.attr v l).1
            (bind_attrs-Looped group_by names vars ss b))
    | inl l ↦
        let names' = names ++ s.attr ∷ [] in
        let vars' = insert s.attr (var_of s.attr) vars in
        let missing : contains names s.attr ≡ false = elim (Bool-cases (contains names s.attr)) [
          | inl h ↦ absurd (ground (arith, b.unknown s.attr l h, eq_iff s.attr group_by))
          | inr h ↦ h
        ] in
        let has : contains names' s.attr ≡ true =
          ground (arith, contains-append names (s.attr ∷ []) s.attr, eq_iff s.attr s.attr) in
        let widens : (j : String) → contains names j ≡ true → contains names' j ≡ true =
          λ j h. ground (arith, contains-append names (s.attr ∷ []) j) in
        let step =
          Bound-insert group_by names names' vars s.attr b
            (Distinct-append names s.attr b.distinct missing) widens
            (λ j h o. ground (arith, contains-append names (s.attr ∷ []) j)) has in
        let behind =
          Looped-step group_by names names' vars vars' s ss _ widens
            (λ k h. ground (arith, contains-append names (s.attr ∷ []) k))
            (insert-keeps s.attr (var_of s.attr) vars) (var_of s.attr)
            (lookup-insert_self s.attr (var_of s.attr) vars) has
            (bind_attrs-Looped group_by names' vars' ss step) in
        rw (bind_attrs, e, l) (rw (← map-append (has_pattern "e") names (s.attr ∷ [])) behind)
  ]
]

-- A part of the reduce over the variable of its attribute.
abbrev pub bound_reduce : AggregateSpec → String
bound_reduce s = assignment (sanitize_var (result_key s)) s.fn (attr_var "e" s.attr)

map-group_reduce :
    (vars : Dict String) (specs : List AggregateSpec)
    → All (λ s. lookup (AggregateSpec.attr s) vars ≡ some (var_of (AggregateSpec.attr s))) specs
    → map (group_reduce vars) specs ≡ map bound_reduce specs
map-group_reduce vars [] h = refl
map-group_reduce vars (s ∷ ss) (here, later) =
    let one : group_reduce vars s ≡ bound_reduce s =
      ap (λ v. assignment (sanitize_var (result_key s)) s.fn (or_empty v)) here in
    λ i. one i ∷ map-group_reduce vars ss later i

-- A grouped query binds every attribute that it mentions, and each only once: behind the type and the
-- patterns of the filters, its match has one line for each of some distinct attributes, which are the
-- grouping attribute and the attributes of the specs and no others; and each part of its reduce is over
-- the variable that the line of its attribute binds, whichever attributes are repeated or are the
-- grouping one.
pub group_text-bound :
    (info : ModelInfo) (fs : Filters) (group_by : String) (specs : List AggregateSpec) (n : ℕ)
    → (names : List String) × Distinct names
      × (contains names group_by ≡ true)
      × All (λ s. contains names (AggregateSpec.attr s) ≡ true) specs
      × ((k : String)
          → contains names k ≡ true
          → contains (group_by ∷ map (λ s. AggregateSpec.attr s) specs) k ≡ true)
      × (group_text info fs group_by specs n
          ≡ all_patterns fs "e" n >>= λ r. ok (
            match_lines info r.0 (map (has_pattern "e") names)
                <> ("\nreduce "
                    <> (join ", " (map bound_reduce specs)
                        <> (", group $" <> (attr_var "e" group_by <> ";")))),
            r.1,
          ))
unfolding group_text
group_text-bound info fs group_by specs n =
    let start : Bound group_by (group_by ∷ []) [] = record {
      distinct = (refl, tt);
      grouped = ground (arith, eq_iff group_by group_by);
      known = λ k v h. absurd (unfold lookup in cc);
      unknown = λ k h has. ground (arith, eq_iff group_by k);
    } in
    let l = bind_attrs-Looped group_by (group_by ∷ []) [] specs start in
    let result = bind_attrs group_by specs (has_pattern "e" group_by ∷ []) [] in
    let reduces = map-group_reduce result.1 specs l.found in
    (
      l.all_names,
      l.all_distinct,
      l.wider group_by start.grouped,
      l.bound,
      l.only,
      λ i. all_patterns fs "e" n >>= λ r. ok (
        match_lines info r.0 (l.lines i)
            <> ("\nreduce "
                <> (join ", " (reduces i) <> (", group $" <> (attr_var "e" group_by <> ";")))),
        r.1,
      ),
    )
