-- ===== src/Contexts.antt =====
-- util/Decl.hpp, util/Decl.cpp and `createContextMap` of output/OutputGenerator.hpp: the
-- declaration contexts of the mocked functions, each with its child contexts.
pub mod Laws
pub mod Links
pub mod Entries
pub mod Reaches
use ccmock.Base.{
  ℕ, zero, suc, Bool, true, false, not, ◌||◌, Option, none, some, List, [], ◌∷◌, ◌++◌, ◌==◌,
  if◌then◌else◌, mem_nat, any,
}
use ccmock.Ast.{
  DeclKind, translation_unit, namespace, cxx_record, other, function, cxx_constructor,
  cxx_destructor, cxx_conversion, is_translation_unit, FunctionDecl, Ast,
}

abbrev pub is_function_kind : DeclKind → Bool
is_function_kind function = true
is_function_kind _ = false

-- a kind that the switches treat as no function
abbrev pub is_class_or_other : DeclKind → Bool
is_class_or_other translation_unit = true
is_class_or_other namespace = true
is_class_or_other cxx_record = true
is_class_or_other other = true
is_class_or_other _ = false

unfoldable pub has_return_type : FunctionDecl → Bool
has_return_type d = elim d.kind [
  | cxx_constructor ↦ false
  | cxx_destructor ↦ false
  | cxx_conversion ↦ false
  | _ ↦ true
]

module _ (ast : Ast) where
  -- `isGlobalContext`: the context has no parent, or its parent is the translation unit.
  unfoldable pub is_global_context : ℕ → Bool
  is_global_context context = elim (ast.parent context) [
    | none ↦ true
    | some p ↦ is_translation_unit (ast.kind p)
  ]

  unfoldable pub contains_function_decls : List ℕ → Bool
  contains_function_decls items = any (λ c. is_function_kind (ast.kind c)) items

  -- `collectAllContexts`: the context and all that enclose it, innermost first.
  unfoldable pub collect_all_contexts : ℕ → Option ℕ → List ℕ
  collect_all_contexts zero context = []
  collect_all_contexts (suc fuel) none = []
  collect_all_contexts (suc fuel) (some c) = c ∷ collect_all_contexts fuel (ast.parent c)

-- `DenseMap<const DeclContext *, DenseSet<const DeclContext *>>`, as its entries.
abbrev pub ContextMap : Type 0
ContextMap = List (ℕ × List ℕ)

-- The order in which a loop runs over the entries of a `DenseMap` or of a `DenseSet`, which the
-- hashes of the addresses decide.
pub record Order : Type 0 where
  pub of_map : ContextMap → ContextMap
  pub of_set : List ℕ → List ℕ

unfoldable pub find : ContextMap → ℕ → Option (List ℕ)
find [] k = none
find ((j, cs) ∷ m) k = if j == k then some cs else find m k

-- `Set.insert(c)`
unfoldable pub insert_set : ℕ → List ℕ → List ℕ
insert_set c cs = if mem_nat c cs then cs else cs ++ c ∷ []

-- `Map[p].insert(c)`
unfoldable pub insert_child : ℕ → ℕ → ContextMap → ContextMap
unfolding insert_set
insert_child p c [] = (p, c ∷ []) ∷ []
insert_child p c ((j, cs) ∷ m) =
    if j == p then (j, insert_set c cs) ∷ m else (j, cs) ∷ insert_child p c m

-- `Map[k]`: the set, and the map with an empty entry for `k` if it had none.
unfoldable pub index_map : ℕ → ContextMap → List ℕ × ContextMap
unfolding find
index_map k m = elim (find m k) [ none ↦ ([], m ++ (k, []) ∷ []) | some cs ↦ (cs, m) ]

module _ (ast : Ast) where
  -- The loop over the parents of one function.
  unfoldable pub climb : ℕ → ℕ → Option ℕ → ContextMap → ContextMap
  climb zero context parent m = m
  climb (suc fuel) context none m = m
  climb (suc fuel) context (some p) m =
      climb fuel (ast.primary p) (ast.parent (ast.primary p))
        (insert_child (ast.primary p) context m)

  unfoldable pub fill_context_map : List FunctionDecl → ContextMap → ContextMap
  unfolding climb
  fill_context_map [] m = m
  fill_context_map (d ∷ ds) m =
      fill_context_map ds (climb ast.nesting (ast.primary d.context) (ast.parent d.context) m)

  unfoldable pub create_context_map : List FunctionDecl → ContextMap
  unfolding fill_context_map
  create_context_map ds = fill_context_map ds []
