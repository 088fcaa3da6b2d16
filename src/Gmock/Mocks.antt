-- ===== src/Gmock/Mocks.antt =====
-- output/GMock.cpp: the walk that writes the mock classes comes to each function.
use ccmock.Base.{
  ℕ, zero, suc, ◌+◌, ◌<◌, String, true, false, none, some, ◌≡◌, refl, sym, ap, ◌∙◌, arith, Action,
  ok, skip, raise_fault,
}
use ccmock.Ast.{
  Ast, Policy, DeclKind, translation_unit, namespace, cxx_record, function, cxx_constructor,
  cxx_destructor, cxx_conversion, cxx_method, other, is_translation_unit, FunctionDecl,
}
use ccmock.Config.{GmockSection}
use ccmock.Writer.{Writer, append, mock_name}
use ccmock.Writer.Shows.{Shows, Shows-then, then-Shows, Shows-for_each}
use ccmock.Contexts.{ContextMap, Order, index_map, is_class_or_other}
use ccmock.Contexts.Laws.{IsNested, IsNamed}
use ccmock.Contexts.Links.{has_child}
use ccmock.Contexts.Entries.{
  Same, IsOrder, IsExhaustive, named_context, index_map-keeps, index_map-children,
  mem_nat-index_map,
}
use ccmock.Contexts.Reaches.{Reaches, arrived, down, is_container}
use ccmock.Gmock.Members.{State, emit, with_writer}
use ccmock.Gmock.Classes.{write_mock_method, write_named_class, write_class_of, write_mock_class}
use ccmock.Gmock.Passes.{Passes, Passes-emit, writer_of}
use ccmock.Gmock.ClassWalk.{
  HasFunctions, Appends-open_class, Appends-close_class, Passes-write_mock_class,
}
use ccmock.Gmock.Texts.{IsMocked, IsMocked-IsLocal, write_mock_method-IsMocked}

-- The statement succeeds, makes no link, and puts a text behind the buffer that says something.
abbrev pub Shown : ContextMap → (Policy → String → Type 0) → Action State → Type 0
Shown start Says a = Shows writer_of (λ s. Same start s.context_map) Says a

pub Shown-emit :
    (start : ContextMap) (Says : Policy → String → Type 0) {m : Action Writer}
    → ((w : Writer) → (text : String) × (m w ≡ ok (append text w)) × Says w.policy text)
    → Shown start Says (emit m)
Shown-emit start Says h = record {
  shows = λ s k.
      let (text, e, says) = h s.writer in
      (record s { writer = append text (s.writer) }, text, ap (with_writer s) e, k, refl, says);
}

-- The walk, which leaves the links as they are.
pub Passes-walk :
    (ast : Ast) (named : IsNamed ast) (cfg : GmockSection) (functions : HasFunctions ast)
    (order : Order) (ordered : IsOrder order) (start : ContextMap) (depth : ℕ → ℕ)
    → IsNested ast depth
    → ((q x : ℕ) → has_child start q x ≡ true → depth q < depth x)
    → (fuel c n : ℕ) → ast.nesting < fuel + depth c
    → Passes (Same start) (write_mock_class ast order cfg fuel c n)
Passes-walk ast named cfg functions order ordered start depth nested deeper fuel c n enough =
    Passes-write_mock_class ast named cfg functions order ordered start (Same start) (λ q. Unit)
      (λ m q x k e. sym (k q x) ∙ index_map-children m q x e)
      (λ m q k w p x. index_map-keeps m q p x ∙ k p x) depth nested deeper (λ q x e f. tt) fuel c n
      enough (λ e. tt)

module _ (ast : Ast) (named : IsNamed ast) (cfg : GmockSection) (functions : HasFunctions ast)
    (order : Order) (ordered : IsOrder order) (exhaustive : IsExhaustive order) (start : ContextMap)
    (d : FunctionDecl) where
  abbrev Mocks : Action State → Type 0
  Mocks a = Shown start (λ policy text. IsMocked policy d text) a

  Mocks-write_named_class :
      (again : ℕ → ℕ → Action State) (c x : ℕ) (name : String) (n : ℕ)
      → ((y k : ℕ) → has_child start c y ≡ true → Passes (Same start) (again y k))
      → has_child start c x ≡ true
      → ((k : ℕ) → Mocks (again x k))
      → Mocks (write_named_class ast order cfg again c name n)
  unfolding write_named_class
  Mocks-write_named_class again c x name n h child shown = record {
    shows = λ s k.
        let holds : State → Type 0 = λ t. Same start t.context_map in
        let children = (index_map c s.context_map).0 in
        (then-Shows writer_of holds (IsMocked-IsLocal d)
            (Passes-emit (Same start) (Appends-open_class ast named cfg c name n))
            (Shows-then writer_of holds (IsMocked-IsLocal d)
              (Shows-for_each writer_of holds (IsMocked-IsLocal d) (order.of_set children)
                (λ y. again y (n + 4)) x
                (λ y e. h y (n + 4) (
                  sym (k c y)
                  ∙ index_map-children s.context_map c y (ordered.of_set_mem y children e)))
                (shown (n + 4))
                (exhaustive.mem_of_set x children
                  (mem_nat-index_map s.context_map c x (k c x ∙ child))))
              (Passes-emit (Same start)
                (Appends-close_class ast named cfg c children name n)))).shows
          (record s { context_map = (index_map c s.context_map).1 })
          (λ q y. index_map-keeps s.context_map c q y ∙ k q y);
  }

  -- At the function itself.
  Mocks-arrived :
      (again : ℕ → ℕ → Action State) (c n : ℕ) {name : String}
      → is_class_or_other (ast.kind c) ≡ false
      → ast.function c ≡ some d
      → mock_name d ≡ some name
      → Mocks (write_class_of ast order cfg again c n)
  unfolding write_class_of
  Mocks-arrived again c n e found called = go (ast.kind c) e
    where
      leaf :
          Mocks
            (elim (ast.function c) [ none ↦ raise_fault | some f ↦ emit (write_mock_method f n) ])
      leaf = rw found (
          Shown-emit start (λ policy text. IsMocked policy d text)
            (λ w. write_mock_method-IsMocked d n w called))

      go :
          (k : DeclKind)
          → is_class_or_other k ≡ false
          → Mocks (elim k [
            | translation_unit ↦ write_named_class ast order cfg again c cfg.class_name n
            | namespace ↦ elim (ast.name c) [
              | none ↦ raise_fault
              | some name ↦ write_named_class ast order cfg again c name n
            ]
            | cxx_record ↦ elim (ast.name c) [
              | none ↦ raise_fault
              | some name ↦ write_named_class ast order cfg again c name n
            ]
            | other ↦ skip
            | _ ↦ elim (ast.function c) [
              | none ↦ raise_fault
              | some f ↦ emit (write_mock_method f n)
            ]
          ])
      go translation_unit f = absurd (cc)
      go namespace f = absurd (cc)
      go cxx_record f = absurd (cc)
      go other f = absurd (cc)
      go function f = leaf
      go cxx_constructor f = leaf
      go cxx_destructor f = leaf
      go cxx_conversion f = leaf
      go cxx_method f = leaf

  -- On the way to it: the child `x` of `c` shows the mock method.
  Mocks-down :
      (again : ℕ → ℕ → Action State) (c x n : ℕ)
      → ((y k : ℕ) → has_child start c y ≡ true → Passes (Same start) (again y k))
      → is_container (ast.kind c) ≡ true
      → has_child start c x ≡ true
      → ((k : ℕ) → Mocks (again x k))
      → Mocks (write_class_of ast order cfg again c n)
  unfolding write_class_of
  Mocks-down again c x n h e child shown = go (ast.kind c) refl
    where
      class :
          is_translation_unit (ast.kind c) ≡ false
          → Mocks (elim (ast.name c) [
            | none ↦ raise_fault
            | some name ↦ write_named_class ast order cfg again c name n
          ])
      class f =
          let (name, called) = named_context ast named c f in
          rw called (Mocks-write_named_class again c x name n h child shown)

      go :
          (k : DeclKind)
          → ast.kind c ≡ k
          → Mocks (elim k [
            | translation_unit ↦ write_named_class ast order cfg again c cfg.class_name n
            | namespace ↦ elim (ast.name c) [
              | none ↦ raise_fault
              | some name ↦ write_named_class ast order cfg again c name n
            ]
            | cxx_record ↦ elim (ast.name c) [
              | none ↦ raise_fault
              | some name ↦ write_named_class ast order cfg again c name n
            ]
            | other ↦ skip
            | _ ↦ elim (ast.function c) [
              | none ↦ raise_fault
              | some f ↦ emit (write_mock_method f n)
            ]
          ])
      go translation_unit f = Mocks-write_named_class again c x cfg.class_name n h child shown
      go namespace f = class (ap is_translation_unit f)
      go cxx_record f = class (ap is_translation_unit f)
      go other f = absurd (cc (ap is_container f, e))
      go function f = absurd (cc (ap is_container f, e))
      go cxx_constructor f = absurd (cc (ap is_container f, e))
      go cxx_destructor f = absurd (cc (ap is_container f, e))
      go cxx_conversion f = absurd (cc (ap is_container f, e))
      go cxx_method f = absurd (cc (ap is_container f, e))

  module _ (depth : ℕ → ℕ) (nested : IsNested ast depth)
      (deeper : (q x : ℕ) → has_child start q x ≡ true → depth q < depth x) where
    pub Mocks-write_mock_class :
        (fuel c n : ℕ) {f : ℕ} {name : String}
        → ast.nesting < fuel + depth c
        → Reaches ast start c f
        → is_class_or_other (ast.kind f) ≡ false
        → ast.function f ≡ some d
        → mock_name d ≡ some name
        → Mocks (write_mock_class ast order cfg fuel c n)
    unfolding write_mock_class
    Mocks-write_mock_class zero c n enough r leaf found called =
        absurd (omega (arith, nested.bounded c))
    Mocks-write_mock_class (suc fuel) c n {f} enough (arrived e) leaf found called =
        Mocks-arrived (write_mock_class ast order cfg fuel) c n
          (ap (λ x. is_class_or_other (ast.kind x)) e ∙ leaf) (ap (λ x. ast.function x) e ∙ found)
          called
    Mocks-write_mock_class (suc fuel) c n enough (down {x = x} container child r) leaf found
          called =
        Mocks-down (write_mock_class ast order cfg fuel) c x n
          (λ y k e.
            Passes-walk ast named cfg functions order ordered start depth nested deeper fuel y k
              (omega (arith, deeper c y e)))
          container child
          (λ k.
            Mocks-write_mock_class fuel x k (omega (arith, deeper c x child)) r leaf found called)
