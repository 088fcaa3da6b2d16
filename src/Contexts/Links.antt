-- ===== src/Contexts/Links.antt =====
-- `createContextMap` against a relation: which context is entered as a child of which.
use ccmock.Base.{
  ℕ, zero, suc, ◌<◌, Bool, true, false, ◌&&◌, ◌||◌, ◌==◌, Option, none, some, List, [], ◌∷◌, ◌++◌,
  ◌≡◌, ◌↔◌, ◌⊎◌, inl, inr, refl, arith, if◌then◌else◌, mem_nat, Bool-cases,
}
use ccmock.Ast.{Ast, FunctionDecl}
use ccmock.Contexts.{
  ContextMap, insert_set, insert_child, climb, fill_context_map, create_context_map,
}
use ccmock.Contexts.Laws.{IsNested}

-- `c` is in the set that the map holds for `p`.
abbrev pub has_child : ContextMap → ℕ → ℕ → Bool
has_child [] p c = false
has_child ((j, cs) ∷ m) p c = if j == p then mem_nat c cs else has_child m p c

-- Going outwards from `context`, whose parent is `parent`: the primary context of the parent has
-- the child `context`, and so on from that primary context.
pub data Link (ast : Ast) : ℕ → Option ℕ → ℕ → ℕ → Type 0 where
  here :
      {context parent p c : ℕ}
      → p ≡ ast.primary parent
      → c ≡ context
      → Link ast context (some parent) p c
  outer :
      {context parent p c : ℕ}
      → Link ast (ast.primary parent) (ast.parent (ast.primary parent)) p c
      → Link ast context (some parent) p c

-- Some function of the list has that link on its way out.
abbrev pub SomeLink : Ast → List FunctionDecl → ℕ → ℕ → Type 0
SomeLink ast [] p c = ⊥
SomeLink ast (d ∷ ds) p c =
    Link ast (ast.primary d.context) (ast.parent d.context) p c ⊎ SomeLink ast ds p c

mem_nat-append_one : (c x : ℕ) (cs : List ℕ) → mem_nat c (cs ++ x ∷ []) ≡ (mem_nat c cs || x == c)
mem_nat-append_one c x [] = ground arith
mem_nat-append_one c x (y ∷ cs) = ground (arith, mem_nat-append_one c x cs)

mem_nat-insert_set :
    (c x : ℕ) (cs : List ℕ) → mem_nat c (insert_set x cs) ≡ (mem_nat c cs || x == c)
unfolding insert_set
mem_nat-insert_set c x cs = ground (arith, mem_nat-append_one c x cs)

pub has_child-insert_child :
    (m : ContextMap) (p c q x : ℕ)
    → has_child (insert_child p c m) q x ≡ (has_child m q x || (p == q && c == x))
unfolding insert_child
has_child-insert_child [] p c q x = ground arith
has_child-insert_child ((j, cs) ∷ m) p c q x =
    ground (arith, has_child-insert_child m p c q x, mem_nat-insert_set x c cs)

module _ (ast : Ast) where
  climb_keeps :
      (fuel context : ℕ) (parent : Option ℕ) (m : ContextMap) (q x : ℕ)
      → has_child m q x ≡ true
      → has_child (climb ast fuel context parent m) q x ≡ true
  unfolding climb
  climb_keeps zero context parent m q x h = h
  climb_keeps (suc fuel) context none m q x h = h
  climb_keeps (suc fuel) context (some p) m q x h =
      climb_keeps fuel (ast.primary p) (ast.parent (ast.primary p))
        (insert_child (ast.primary p) context m) q x
        (ground (arith, has_child-insert_child m (ast.primary p) context q x))

  climb_sound :
      (fuel context : ℕ) (parent : Option ℕ) (m : ContextMap) (q x : ℕ)
      → has_child (climb ast fuel context parent m) q x ≡ true
      → (has_child m q x ≡ true) ⊎ Link ast context parent q x
  unfolding climb
  climb_sound zero context parent m q x h = inl h
  climb_sound (suc fuel) context none m q x h = inl h
  climb_sound (suc fuel) context (some p) m q x h =
      elim (climb_sound fuel (ast.primary p) (ast.parent (ast.primary p))
        (insert_child (ast.primary p) context m) q x h) [
          | inr later ↦ inr (outer later)
          | inl now ↦ elim (Bool-cases (has_child m q x)) [
            | inl old ↦ inl old
            | inr new ↦ inr (
                here (ground (arith, has_child-insert_child m (ast.primary p) context q x))
                  (ground (arith, has_child-insert_child m (ast.primary p) context q x)))
          ]
        ]

  module _ (depth : ℕ → ℕ) (nested : IsNested ast depth) where
    climb_complete :
        (fuel context : ℕ) (parent : Option ℕ) (m : ContextMap) (q x : ℕ)
        → ((p : ℕ) → parent ≡ some p → depth p < fuel)
        → Link ast context parent q x
        → has_child (climb ast fuel context parent m) q x ≡ true
    unfolding climb
    climb_complete zero context none m q x enough link = elim link [ ]
    climb_complete (suc fuel) context none m q x enough link = elim link [ ]
    climb_complete zero context (some p) m q x enough link = absurd (omega (arith, enough p refl))
    climb_complete (suc fuel) context (some p) m q x enough (here e f) =
        climb_keeps fuel (ast.primary p) (ast.parent (ast.primary p)) _ q x
          (ground (arith, has_child-insert_child m (ast.primary p) context q x))
    climb_complete (suc fuel) context (some p) m q x enough (outer link) =
        climb_complete fuel (ast.primary p) (ast.parent (ast.primary p)) _ q x
          (λ r e.
            omega (
              arith,
              nested.parent_depth (ast.primary p) r e,
              nested.primary_depth p,
              enough p refl,
            ))
          link

    fill_keeps :
        (ds : List FunctionDecl) (m : ContextMap) (q x : ℕ)
        → has_child m q x ≡ true
        → has_child (fill_context_map ast ds m) q x ≡ true
    unfolding fill_context_map
    fill_keeps [] m q x h = h
    fill_keeps (d ∷ ds) m q x h = fill_keeps ds _ q x (climb_keeps ast.nesting _ _ m q x h)

    fill_sound :
        (ds : List FunctionDecl) (m : ContextMap) (q x : ℕ)
        → has_child (fill_context_map ast ds m) q x ≡ true
        → (has_child m q x ≡ true) ⊎ SomeLink ast ds q x
    unfolding fill_context_map
    fill_sound [] m q x h = inl h
    fill_sound (d ∷ ds) m q x h = elim (fill_sound ds _ q x h) [
      | inr later ↦ inr (inr later)
      | inl now ↦ elim (climb_sound ast.nesting _ _ m q x now) [
        | inl old ↦ inl old
        | inr link ↦ inr (inl link)
      ]
    ]

    fill_complete :
        (ds : List FunctionDecl) (m : ContextMap) (q x : ℕ)
        → SomeLink ast ds q x
        → has_child (fill_context_map ast ds m) q x ≡ true
    unfolding fill_context_map
    fill_complete [] m q x link = absurd link
    fill_complete (d ∷ ds) m q x (inr later) = fill_complete ds _ q x later
    fill_complete (d ∷ ds) m q x (inl link) = fill_keeps ds _ q x (
        climb_complete ast.nesting _ _ m q x
          (λ p e. omega (arith, nested.parent_depth d.context p e, nested.bounded d.context)) link)

    -- With nested contexts, the map holds `x` among the children of `q` exactly when some function
    -- of the list, on its way out to the translation unit, passes from `x` to `q`.
    pub create_context_map-SomeLink :
        (ds : List FunctionDecl) (q x : ℕ)
        → (has_child (create_context_map ast ds) q x ≡ true) ↔ SomeLink ast ds q x
    unfolding create_context_map
    create_context_map-SomeLink ds q x = (
      λ h. elim (fill_sound ds [] q x h) [ inl old ↦ absurd (ground arith) | inr link ↦ link ],
      fill_complete ds [] q x,
    )
