-- ===== src/Contexts/Reaches.antt =====
-- The context map of `createContextMap`: from the translation unit every function is reached.
use mathlib.Core.Path.{subst}
use ccmock.Base.{
  ℕ, zero, suc, ◌<◌, Bool, true, false, some, List, [], ◌∷◌, ◌≡◌, refl, sym, inl, inr, arith,
  Option-cases, All,
}
use ccmock.Ast.{Ast, DeclKind, translation_unit, namespace, cxx_record, FunctionDecl}
use ccmock.Contexts.{is_class_or_other, ContextMap, create_context_map}
use ccmock.Contexts.Laws.{IsRooted, IsNested}
use ccmock.Contexts.Links.{has_child, Link, here, outer, SomeLink, create_context_map-SomeLink}

-- a context around which the generators write the declarations of its children
abbrev pub is_container : DeclKind → Bool
is_container translation_unit = true
is_container namespace = true
is_container cxx_record = true
is_container _ = false

-- From `c` down to `f`, through containers.
pub data Reaches (ast : Ast) (m : ContextMap) : ℕ → ℕ → Type 0 where
  arrived : {c f : ℕ} → c ≡ f → Reaches ast m c f
  down :
      {c x f : ℕ}
      → is_container (ast.kind c) ≡ true
      → has_child m c x ≡ true
      → Reaches ast m x f
      → Reaches ast m c f

-- Contexts lie in namespaces and classes only: not in functions, nor in `extern "C"` blocks.
pub record IsContained (ast : Ast) : Type 0 where
  pub parent_kind :
      (c p : ℕ) → ast.parent c ≡ some p → is_container (ast.kind (ast.primary p)) ≡ true

module _ (ast : Ast) (depth : ℕ → ℕ) (nested : IsNested ast depth) (rooted : IsRooted ast)
    (contained : IsContained ast) (ds : List FunctionDecl) where
  -- From a context on the way out of a function, on to the translation unit.
  climb-Reaches :
      (fuel c f : ℕ)
      → depth c < fuel
      → ((q x : ℕ) → Link ast c (ast.parent c) q x → SomeLink ast ds q x)
      → Reaches ast (create_context_map ast ds) c f
      → Reaches ast (create_context_map ast ds) ast.root f
  climb-Reaches zero c f enough links r = absurd (omega arith)
  climb-Reaches (suc fuel) c f enough links r = elim (Option-cases (ast.parent c)) [
    | inl e ↦ subst (λ x. Reaches ast (create_context_map ast ds) x f) (rooted.only_root c e) r
    | inr (p, e) ↦
        climb-Reaches fuel (ast.primary p) f
          (omega (arith, nested.parent_depth c p e, nested.primary_depth p))
          (λ q x link. links q x (subst (λ o. Link ast c o q x) (sym e) (outer link)))
          (down (contained.parent_kind c p e)
            ((create_context_map-SomeLink ast depth nested ds (ast.primary p) c).1 (
              links (ast.primary p) c
                (subst (λ o. Link ast c o (ast.primary p) c) (sym e) (here refl refl))))
            r)
  ]

  function-Reaches :
      (d : FunctionDecl)
      → ((q x : ℕ)
          → Link ast (ast.primary d.context) (ast.parent d.context) q x
          → SomeLink ast ds q x)
      → (p : ℕ) → ast.parent d.context ≡ some p
      → Reaches ast (create_context_map ast ds) ast.root (ast.primary d.context)
  function-Reaches d links p e =
      climb-Reaches (suc (depth (ast.primary p))) (ast.primary p) (ast.primary d.context)
        (omega arith)
        (λ q x link.
          links q x (subst (λ o. Link ast (ast.primary d.context) o q x) (sym e) (outer link)))
        (down (contained.parent_kind d.context p e)
          ((create_context_map-SomeLink ast depth nested ds (ast.primary p)
              (ast.primary d.context)).1
            (links (ast.primary p) (ast.primary d.context) (
              subst
                (λ o. Link ast (ast.primary d.context) o (ast.primary p) (ast.primary d.context))
                (sym e) (here refl refl))))
          (arrived refl))

-- Every function that has a context around it is reached from the translation unit.
pub functions-Reaches :
    (ast : Ast) (depth : ℕ → ℕ) (nested : IsNested ast depth)
    → IsRooted ast
    → IsContained ast
    → (ds : List FunctionDecl) → All (λ d. (p : ℕ) × (ast.parent d.context ≡ some p)) ds
    → All (λ d. Reaches ast (create_context_map ast ds) ast.root (ast.primary d.context)) ds
functions-Reaches ast depth nested rooted contained ds = go ds (λ q x link. link)
  where
    go :
        (es : List FunctionDecl)
        → ((q x : ℕ) → SomeLink ast es q x → SomeLink ast ds q x)
        → All (λ d. (p : ℕ) × (ast.parent d.context ≡ some p)) es
        → All (λ d. Reaches ast (create_context_map ast ds) ast.root (ast.primary d.context)) es
    go [] links enclosed = tt
    go (d ∷ es) links enclosed = (
      function-Reaches ast depth nested rooted contained ds d (λ q x link. links q x (inl link))
          enclosed.0.0 enclosed.0.1,
      go es (λ q x link. links q x (inr link)) enclosed.1,
    )

-- The function's own context is a function for clang, and there is one around it.
pub record IsOwn (ast : Ast) (d : FunctionDecl) : Type 0 where
  pub leaf : is_class_or_other (ast.kind (ast.primary d.context)) ≡ false
  pub itself : ast.function (ast.primary d.context) ≡ some d
  pub enclosed : (p : ℕ) × (ast.parent d.context ≡ some p)

pub All-enclosed :
    (ast : Ast) (ds : List FunctionDecl)
    → All (IsOwn ast) ds
    → All (λ d. (p : ℕ) × (ast.parent d.context ≡ some p)) ds
All-enclosed ast [] own = tt
All-enclosed ast (d ∷ ds) own = (own.0.enclosed, All-enclosed ast ds own.1)
