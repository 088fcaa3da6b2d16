-- ===== src/Raw/Complete.antt =====
-- output/Raw.cpp: every function is declared in the output.
use mathlib.Core.Path.{subst}
use ccmock.Base.{
  ℕ, zero, suc, ◌+◌, ◌<◌, true, false, none, some, String, List, [], ◌∷◌, ◌≡◌, refl, sym, ap, ◌∙◌,
  arith, ◌<>◌, All, Action, ok, skip, raise_fault, spaces, <>-empty, <>-cancel,
}
use ccmock.Ast.{
  Ast, DeclKind, translation_unit, namespace, cxx_record, function, cxx_constructor, cxx_destructor,
  cxx_conversion, cxx_method, other, is_translation_unit, FunctionDecl,
}
use ccmock.Writer.{Writer, append, write_function_decl}
use ccmock.Writer.Appends.{append-append}
use ccmock.Contexts.{ContextMap, Order, index_map, is_class_or_other, create_context_map}
use ccmock.Contexts.Laws.{IsNested, IsNamed, IsRooted}
use ccmock.Contexts.Links.{has_child, create_context_map-SomeLink}
use ccmock.Contexts.Entries.{
  Same, IsOrder, IsExhaustive, SomeLink-deeper, index_map-keeps, index_map-children,
  mem_nat-index_map,
}
use ccmock.Contexts.Reaches.{
  IsOwn, Reaches, arrived, down, IsContained, is_container, All-enclosed, functions-Reaches,
}
use ccmock.Raw.{
  State, for_children, visit_function, visit_namespace, visit_record, visit_context, visit, run,
}
use ccmock.Raw.Prints.{IsBraced, Prints}
use ccmock.Raw.Statements.{
  HasFunctionDecls, Prints-change_access, Prints-open_namespace, Prints-close_namespace,
  Prints-open_record, Prints-close_record,
}
use ccmock.Raw.Balance.{Prints-visit}
use ccmock.Raw.Shows.{IsDeclared, Shows, Shows-then, then-Shows, Shows-for_each}

module _ (ast : Ast) (named : IsNamed ast) (braced : IsBraced ast)
    (functions : HasFunctionDecls ast) (order : Order) (ordered : IsOrder order)
    (exhaustive : IsExhaustive order) (start : ContextMap) (d : FunctionDecl) where
  Shows-for_children :
      (c x : ℕ) (body : ℕ → Action State)
      → ((y : ℕ) → has_child start c y ≡ true → Prints (Same start) (λ n. n) (λ n. n) (body y))
      → has_child start c x ≡ true
      → Shows (Same start) d (body x)
      → Shows (Same start) d (for_children ast order c body)
  unfolding for_children
  Shows-for_children c x body h child shown = record {
    shows = λ s k.
        let children = (index_map c s.context_map).0 in
        (Shows-for_each (Same start) d (order.of_set children) body x
            (λ y e. h y (
              sym (k c y) ∙ index_map-children s.context_map c y (ordered.of_set_mem y children e)))
            shown
            (exhaustive.mem_of_set x children
              (mem_nat-index_map s.context_map c x (k c x ∙ child)))).shows
          (record s { context_map = (index_map c s.context_map).1 })
          (λ q y. index_map-keeps s.context_map c q y ∙ k q y);
  }

  Shows-visit_function : (n : ℕ) → Shows (Same start) d (visit_function d n)
  unfolding visit_function write_function_decl
  Shows-visit_function n =
      then-Shows (Same start) d
        (Prints-change_access ast named braced functions order ordered start d)
        (record {
          shows = λ s k.
              let w = s.writer in
              let declared = d.printed w.policy n in
              (
                record s { writer = append ";\n" (append declared (append (spaces n) w)) },
                spaces n <> (declared <> ";\n"),
                refl,
                k,
                append-append declared ";\n" (append (spaces n) w)
                    ∙ append-append (spaces n) (declared <> ";\n") w,
                (n, spaces n, "", ap (λ x. spaces n <> (declared <> x)) (sym (<>-empty ";\n"))),
              );
        })

  -- At the function itself.
  Shows-arrived :
      (again : ℕ → ℕ → Action State) (c n : ℕ)
      → is_class_or_other (ast.kind c) ≡ false
      → ast.function c ≡ some d
      → Shows (Same start) d (visit_context ast order again c n)
  unfolding visit_context
  Shows-arrived again c n e found = go (ast.kind c) e
    where
      leaf :
          Shows
            (Same start)
            d
            (elim (ast.function c) [ none ↦ raise_fault | some f ↦ visit_function f n ])
      leaf = rw found (Shows-visit_function n)

      go :
          (k : DeclKind)
          → is_class_or_other k ≡ false
          → Shows (Same start) d (elim k [
            | translation_unit ↦ for_children ast order c (λ x. again x n)
            | namespace ↦ visit_namespace ast order again c n
            | cxx_record ↦ visit_record ast order again c n
            | other ↦ skip
            | _ ↦ elim (ast.function c) [ none ↦ raise_fault | some f ↦ visit_function f n ]
          ])
      go translation_unit f = absurd (cc)
      go namespace f = absurd (cc)
      go cxx_record f = absurd (cc)
      go other f = absurd (cc)
      go function f = leaf
      go cxx_constructor f = leaf
      go cxx_destructor f = leaf
      go cxx_conversion f = leaf
      go cxx_method f = leaf

  -- On the way to it: the child `x` of `c` shows the function.
  Shows-down :
      (again : ℕ → ℕ → Action State) (c x n : ℕ)
      → ((y k : ℕ) → has_child start c y ≡ true → Prints (Same start) (λ m. m) (λ m. m) (again y k))
      → is_container (ast.kind c) ≡ true
      → has_child start c x ≡ true
      → ((k : ℕ) → Shows (Same start) d (again x k))
      → Shows (Same start) d (visit_context ast order again c n)
  unfolding visit_context visit_namespace visit_record
  Shows-down again c x n h e child shown = go (ast.kind c) refl
    where
      children : (k : ℕ) → Shows (Same start) d (for_children ast order c (λ y. again y k))
      children k = Shows-for_children c x (λ y. again y k) (λ y f. h y k f) child (shown k)

      go :
          (k : DeclKind)
          → ast.kind c ≡ k
          → Shows (Same start) d (elim k [
            | translation_unit ↦ for_children ast order c (λ y. again y n)
            | namespace ↦ visit_namespace ast order again c n
            | cxx_record ↦ visit_record ast order again c n
            | other ↦ skip
            | _ ↦ elim (ast.function c) [ none ↦ raise_fault | some f ↦ visit_function f n ]
          ])
      go translation_unit f = children n
      go namespace f =
          then-Shows (Same start) d
            (Prints-open_namespace ast named braced functions order ordered start c n
              (ap is_translation_unit f))
            (Shows-then (Same start) d (children n) (
              Prints-close_namespace ast named braced functions order ordered start c
                (ap is_translation_unit f)))
      go cxx_record f =
          then-Shows (Same start) d
            (Prints-open_record ast named braced functions order ordered start c n
              (ap is_translation_unit f))
            (Shows-then (Same start) d (children (n + 4))
              (Prints-close_record ast named braced functions order ordered start))
      go other f = absurd (cc (ap is_container f, e))
      go function f = absurd (cc (ap is_container f, e))
      go cxx_constructor f = absurd (cc (ap is_container f, e))
      go cxx_destructor f = absurd (cc (ap is_container f, e))
      go cxx_conversion f = absurd (cc (ap is_container f, e))
      go cxx_method f = absurd (cc (ap is_container f, e))

  module _ (depth : ℕ → ℕ) (nested : IsNested ast depth)
      (deeper : (q x : ℕ) → has_child start q x ≡ true → depth q < depth x) where
    Shows-visit :
        (fuel c n : ℕ) {f : ℕ}
        → ast.nesting < fuel + depth c
        → Reaches ast start c f
        → is_class_or_other (ast.kind f) ≡ false
        → ast.function f ≡ some d
        → Shows (Same start) d (visit ast order fuel c n)
    unfolding visit
    Shows-visit zero c n enough r leaf found = absurd (omega (arith, nested.bounded c))
    Shows-visit (suc fuel) c n {f} enough (arrived e) leaf found =
        Shows-arrived (visit ast order fuel) c n (ap (λ x. is_class_or_other (ast.kind x)) e ∙ leaf)
          (ap (λ x. ast.function x) e ∙ found)
    Shows-visit (suc fuel) c n enough (down {x = x} container child r) leaf found =
        Shows-down (visit ast order fuel) c x n
          (λ y k e.
            Prints-visit ast named braced functions order ordered start depth nested deeper fuel y k
              (omega (arith, deeper c y e)))
          container child (λ k. Shows-visit fuel x k (omega (arith, deeper c x child)) r leaf found)

module _ (ast : Ast) (depth : ℕ → ℕ) (nested : IsNested ast depth) (named : IsNamed ast)
    (rooted : IsRooted ast) (contained : IsContained ast) (braced : IsBraced ast)
    (declared : HasFunctionDecls ast) (order : Order) (ordered : IsOrder order)
    (exhaustive : IsExhaustive order) where
  deeper :
      (ds : List FunctionDecl) (q x : ℕ)
      → has_child (create_context_map ast ds) q x ≡ true
      → depth q < depth x
  deeper ds q x e =
      SomeLink-deeper ast depth nested ds q x
        ((create_context_map-SomeLink ast depth nested ds q x).0 e)

  visit-IsDeclared :
      (ds es : List FunctionDecl) (s : State) (text : String) {t : State}
      → Same (create_context_map ast ds) s.context_map
      → visit ast order (suc ast.nesting) ast.root 0 s ≡ ok t
      → t.writer ≡ append text s.writer
      → All (IsOwn ast) es
      → All (λ d. Reaches ast (create_context_map ast ds) ast.root (ast.primary d.context)) es
      → All (λ d. IsDeclared s.writer.policy d text) es
  visit-IsDeclared ds [] s text same e w own reached = tt
  visit-IsDeclared ds (d ∷ es) s text same e w own reached =
      let (u, shown, k, same', v, i) =
        (Shows-visit ast named braced declared order ordered exhaustive (create_context_map ast ds)
            d depth nested (deeper ds) (suc ast.nesting) ast.root 0 (omega arith) reached.0
            own.0.leaf own.0.itself).shows
          s same in
      let written : append shown s.writer ≡ append text s.writer = cc (e, k, w, v) in
      (
        subst (λ x. IsDeclared s.writer.policy d x)
            (<>-cancel s.writer.buffer shown text (ap (λ (x : Writer). x.buffer) written)) i,
        visit-IsDeclared ds es s text same e w own.1 reached.1,
      )

  -- With nested, named contexts under one translation unit, functions that stand in namespaces and
  -- classes only, names and printed declarations in which braces are balanced, and loops that come
  -- to each element of a set: the backend succeeds, does nothing to the writer but put some text
  -- behind the buffer, and in that text each of the functions is declared, as clang prints it at
  -- some indentation under the writer's printing policy.
  pub run-IsDeclared :
      (functions : List FunctionDecl) (s : State)
      → All (IsOwn ast) functions
      → (t : State) × (text : String) × (run ast order functions s ≡ ok t)
        × (t.writer ≡ append text s.writer)
        × All (λ d. IsDeclared s.writer.policy d text) functions
  unfolding run
  run-IsDeclared functions s own =
      let start = create_context_map ast functions in
      let begin = record s { context_map = start } in
      let (t, text, e, same, w, balanced) =
        (Prints-visit ast named braced declared order ordered start depth nested (deeper functions)
            (suc ast.nesting) ast.root 0 (omega arith)).prints
          begin (λ q x. refl) in
      (
        t,
        text,
        e,
        w,
        visit-IsDeclared functions functions begin text (λ q x. refl) e w own
            (functions-Reaches ast depth nested rooted contained functions
              (All-enclosed ast functions own)),
      )
