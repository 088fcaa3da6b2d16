-- ===== src/Gmock/Stable.antt =====
-- output/GMock.cpp: `writeMockClass` holds a reference into the context map while it calls itself,
-- and `ContextMap_[Context]` would move the sets if it made an entry.
use mathlib.Core.Path.{subst}
use ccmock.Base.{
  ℕ, zero, suc, ◌<◌, Bool, true, false, some, List, ◌∷◌, ◌≡◌, refl, sym, ◌∙◌, inl, inr, arith,
  Option-cases, All, ok,
}
use ccmock.Ast.{Ast, FunctionDecl, VarDecl}
use ccmock.Config.{GmockSection}
use ccmock.Contexts.{Order, is_class_or_other, create_context_map}
use ccmock.Contexts.Laws.{IsRooted, IsNested, IsNamed}
use ccmock.Contexts.Links.{has_child, Link, here, outer, SomeLink, create_context_map-SomeLink}
use ccmock.Gmock.Members.{State}
use ccmock.Gmock.Appends.{IsWritable}
use ccmock.Contexts.Entries.{
  IsOrder, HasEntry, index_map-children, index_map-HasEntry, has_child-HasEntry,
}
use ccmock.Gmock.ClassWalk.{HasFunctions, SomeLink-step}
use ccmock.Gmock.Total.{run-Passes}
use ccmock.Gmock.{run}

-- The function's own context is a function for clang.
abbrev pub HasOwnContext : Ast → FunctionDecl → Type 0
HasOwnContext ast d = is_class_or_other (ast.kind (ast.primary d.context)) ≡ false

module _ (ast : Ast) (depth : ℕ → ℕ) (nested : IsNested ast depth) (rooted : IsRooted ast) where
  -- Every way out ends at the translation unit.
  Link-root : (fuel context p : ℕ) → depth p < fuel → (x : ℕ) × Link ast context (some p) ast.root x
  Link-root zero context p enough = absurd (omega arith)
  Link-root (suc fuel) context p enough = elim (Option-cases (ast.parent (ast.primary p))) [
    | inl e ↦ (context, here (sym (rooted.only_root (ast.primary p) e)) refl)
    | inr (r, e) ↦
        let (x, link) =
          Link-root fuel (ast.primary p) r
            (omega (arith, nested.parent_depth (ast.primary p) r e, nested.primary_depth p)) in
        (x, outer (subst (λ o. Link ast (ast.primary p) o ast.root x) (sym e) link))
  ]

  SomeLink-root :
      (d : FunctionDecl) (ds : List FunctionDecl)
      → IsWritable ast d
      → (x : ℕ) × SomeLink ast (d ∷ ds) ast.root x
  SomeLink-root d ds h =
      let (p, e) = h.enclosed in
      let (x, link) =
        Link-root (suc ast.nesting) (ast.primary d.context) p (omega (arith, nested.bounded p)) in
      (x, inl (subst (λ o. Link ast (ast.primary d.context) o ast.root x) (sym e) link))

module _ (ast : Ast) (depth : ℕ → ℕ) (nested : IsNested ast depth) (named : IsNamed ast)
    (rooted : IsRooted ast) (functions_named : HasFunctions ast) (order : Order)
    (ordered : IsOrder order) (cfg : GmockSection) where
  -- With at least one function, all of which have mock names, contexts of their own around which
  -- there are others, and parameters if they are variadic: the backend succeeds and leaves the
  -- context map as `createContextMap` made it, so no set moves while a loop runs over it.
  pub run-create_context_map :
      (any_variadic : Bool) (d : FunctionDecl) (ds : List FunctionDecl) (vars : List VarDecl)
      (s : State)
      → All (IsWritable ast) (d ∷ ds)
      → All (HasOwnContext ast) (d ∷ ds)
      → (t : State) × (run ast order cfg any_variadic (d ∷ ds) vars s ≡ ok t)
        × (t.context_map ≡ create_context_map ast (d ∷ ds))
  run-create_context_map any_variadic d ds vars s writable own =
      let start = create_context_map ast (d ∷ ds) in
      let links : (q x : ℕ) → SomeLink ast (d ∷ ds) q x → has_child start q x ≡ true =
        λ q x link. (create_context_map-SomeLink ast depth nested (d ∷ ds) q x).1 link in
      let (x, out) = SomeLink-root ast depth nested rooted d ds writable.0 in
      let (t, text, e, same, w) =
        run-Passes ast depth nested named order cfg functions_named ordered (λ m. m ≡ start)
          (HasEntry start) (d ∷ ds)
          (λ m c y e k. subst (λ n. has_child n c y ≡ true) e (index_map-children m c y k))
          (λ m c e entry. index_map-HasEntry m c (subst (λ n. HasEntry n c) (sym e) entry) ∙ e)
          (λ q y e class.
            let (z, link) =
              SomeLink-step ast (d ∷ ds) q y
                ((create_context_map-SomeLink ast depth nested (d ∷ ds) q y).0 e) class own in
            has_child-HasEntry start y z (links y z link))
          (has_child-HasEntry start ast.root x (links ast.root x out)) any_variadic vars s writable
          refl in
      (t, e, same)
