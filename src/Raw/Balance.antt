-- ===== src/Raw/Balance.antt =====
-- output/Raw.cpp: the walk over the contexts ends, does not fail, and closes what it opens.
use ccmock.Base.{
  ℕ, zero, suc, ◌+◌, ◌<◌, true, false, none, some, String, List, ◌≡◌, refl, ap, arith, Action, ok,
  skip, raise_fault,
}
use ccmock.Ast.{
  Ast, DeclKind, translation_unit, namespace, cxx_record, function, cxx_constructor, cxx_destructor,
  cxx_conversion, cxx_method, other, is_translation_unit, FunctionDecl,
}
use ccmock.Writer.{append}
use ccmock.Writer.Braces.{level, IsBalanced}
use ccmock.Contexts.{ContextMap, Order, is_class_or_other, create_context_map}
use ccmock.Contexts.Laws.{IsNested, IsNamed}
use ccmock.Contexts.Links.{has_child, create_context_map-SomeLink}
use ccmock.Contexts.Entries.{Same, IsOrder, SomeLink-deeper}
use ccmock.Raw.{
  State, visit_function, for_children, visit_namespace, visit_record, visit_context, visit, run,
}
use ccmock.Raw.Prints.{IsBraced, Prints, Prints-skip, Prints-seq, Prints-at}
use ccmock.Raw.Statements.{
  HasFunctionDecls, Prints-visit_function, Prints-for_children, Prints-open_namespace,
  Prints-close_namespace, Prints-open_record, Prints-close_record,
}

module _ (ast : Ast) (named : IsNamed ast) (braced : IsBraced ast)
    (functions : HasFunctionDecls ast) (order : Order) (ordered : IsOrder order)
    (start : ContextMap) where
  module _ (again : ℕ → ℕ → Action State) (c n : ℕ)
      (h : (x k : ℕ)
        → has_child start c x ≡ true
        → Prints (Same start) level level (again x k)) where
    Prints-visit_namespace :
        is_translation_unit (ast.kind c) ≡ false
        → Prints (Same start) level level (visit_namespace ast order again c n)
    unfolding visit_namespace
    Prints-visit_namespace e =
        Prints-seq (Same start) level suc level
          (Prints-open_namespace ast named braced functions order ordered start c n e)
          (Prints-seq (Same start) suc suc level
            (Prints-at (Same start) suc (
              Prints-for_children ast named braced functions order ordered start c _
                (λ x f. h x n f)))
            (Prints-close_namespace ast named braced functions order ordered start c e))

    Prints-visit_record :
        is_translation_unit (ast.kind c) ≡ false
        → Prints (Same start) level level (visit_record ast order again c n)
    unfolding visit_record
    Prints-visit_record e =
        Prints-seq (Same start) level suc level
          (Prints-open_record ast named braced functions order ordered start c n e)
          (Prints-seq (Same start) suc suc level
            (Prints-at (Same start) suc (
              Prints-for_children ast named braced functions order ordered start c _
                (λ x f. h x (n + 4) f)))
            (Prints-close_record ast named braced functions order ordered start))

    Prints-visit_context : Prints (Same start) level level (visit_context ast order again c n)
    unfolding visit_context
    Prints-visit_context = go (ast.kind c) refl
      where
        leaf :
            is_class_or_other (ast.kind c) ≡ false
            → Prints
                (Same start)
                level
                level
                (elim (ast.function c) [ none ↦ raise_fault | some d ↦ visit_function d n ])
        leaf e =
            let (d, found) = functions.function_of c e in
            rw found
              (Prints-visit_function ast named braced functions order ordered start c d n found)

        go :
            (k : DeclKind)
            → ast.kind c ≡ k
            → Prints (Same start) level level (elim k [
              | translation_unit ↦ for_children ast order c (λ x. again x n)
              | namespace ↦ visit_namespace ast order again c n
              | cxx_record ↦ visit_record ast order again c n
              | other ↦ skip
              | _ ↦ elim (ast.function c) [ none ↦ raise_fault | some d ↦ visit_function d n ]
            ])
        go translation_unit e =
            Prints-for_children ast named braced functions order ordered start c _ (λ x f. h x n f)
        go namespace e = Prints-visit_namespace (ap is_translation_unit e)
        go cxx_record e = Prints-visit_record (ap is_translation_unit e)
        go other e = Prints-skip (Same start) level
        go function e = leaf (ap is_class_or_other e)
        go cxx_constructor e = leaf (ap is_class_or_other e)
        go cxx_destructor e = leaf (ap is_class_or_other e)
        go cxx_conversion e = leaf (ap is_class_or_other e)
        go cxx_method e = leaf (ap is_class_or_other e)

  module _ (depth : ℕ → ℕ) (nested : IsNested ast depth)
      (deeper : (q x : ℕ) → has_child start q x ≡ true → depth q < depth x) where
    pub Prints-visit :
        (fuel c n : ℕ)
        → ast.nesting < fuel + depth c
        → Prints (Same start) level level (visit ast order fuel c n)
    unfolding visit
    Prints-visit zero c n enough = absurd (omega (arith, nested.bounded c))
    Prints-visit (suc fuel) c n enough =
        Prints-visit_context (visit ast order fuel) c n
          (λ x k e. Prints-visit fuel x k (omega (arith, deeper c x e)))

module _ (ast : Ast) (depth : ℕ → ℕ) (nested : IsNested ast depth) (named : IsNamed ast)
    (braced : IsBraced ast) (declared : HasFunctionDecls ast) (order : Order)
    (ordered : IsOrder order) where
  -- With nested, named contexts, and names and declarations in which braces are balanced: the
  -- backend ends and succeeds whatever the functions are, it does nothing to the writer but put
  -- some text behind the buffer, and in that text every brace that opens is closed and no other
  -- closes.
  pub run-IsBalanced :
      (functions : List FunctionDecl) (s : State)
      → (t : State) × (text : String) × (run ast order functions s ≡ ok t)
        × (t.writer ≡ append text s.writer)
        × IsBalanced text
  unfolding run
  run-IsBalanced functions s =
      let start = create_context_map ast functions in
      let (t, text, e, same, w, balanced) =
        (Prints-visit ast named braced declared order ordered start depth nested
            (λ q x e.
              SomeLink-deeper ast depth nested functions q x
                ((create_context_map-SomeLink ast depth nested functions q x).0 e))
            (suc ast.nesting) ast.root 0 (omega arith)).prints
          (record s { context_map = start }) (λ q x. refl) in
      (t, text, e, w, balanced)
