-- ===== src/Contexts/Laws.antt =====
-- What the model relies on of clang's declaration contexts.
use ccmock.Base.{ℕ, ◌≤◌, ◌<◌, String, true, none, some, ◌≡◌}
use ccmock.Ast.{Ast, is_translation_unit}

-- Contexts are nested: a parent lies less deep than its children, and a primary context as deep as
-- the context itself.
pub record IsNested (ast : Ast) (depth : ℕ → ℕ) : Type 0 where
  pub bounded : (c : ℕ) → depth c ≤ ast.nesting
  pub parent_depth : (c p : ℕ) → ast.parent c ≡ some p → depth p < depth c
  pub primary_depth : (c : ℕ) → depth (ast.primary c) ≡ depth c

-- The translation unit is the context without a parent, and the one without a name: the code has
-- no `extern "C"` block, which is a context without a name too.
pub record IsNamed (ast : Ast) : Type 0 where
  pub root_kind : (c : ℕ) → ast.parent c ≡ none → is_translation_unit (ast.kind c) ≡ true
  pub root_parent : (c : ℕ) → is_translation_unit (ast.kind c) ≡ true → ast.parent c ≡ none
  pub root_name : (c : ℕ) → ast.parent c ≡ none → ast.name c ≡ none
  pub inner_name : (c p : ℕ) → ast.parent c ≡ some p → (name : String) × (ast.name c ≡ some name)

-- The translation unit is the only context without a parent.
pub record IsRooted (ast : Ast) : Type 0 where
  pub only_root : (c : ℕ) → ast.parent c ≡ none → c ≡ ast.root
