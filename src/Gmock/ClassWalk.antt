-- ===== src/Gmock/ClassWalk.antt =====
-- output/GMock.cpp: the walk that writes the mock classes ends, and does not fail.
use ccmock.Base.{
  ◌⊎◌, All, mem_nat, ℕ, zero, suc, ◌+◌, ◌<◌, String, true, false, Option, none, some, List, [], ◌∷◌,
  ◌≡◌, refl, ap, inl, inr, arith, if◌then◌else◌, mem_nat, Action, ◌>>◌, skip, raise_fault,
}
use ccmock.Ast.{
  Ast, DeclKind, translation_unit, namespace, cxx_record, function, cxx_constructor, cxx_destructor,
  cxx_conversion, cxx_method, other, is_translation_unit, FunctionDecl,
}
use ccmock.Config.{GmockSection}
use ccmock.Writer.{write, with_name, mock_name}
use ccmock.Writer.Appends.{
  Appends, appends, Appends-write, Appends-seq, Appends-if, Appends-test, Appends-indent,
  Appends-with_name, Appends-write_return_type, Appends-write_mock_name,
}
use ccmock.Writer.Parameters.{Appends-write_function_parameter_list}
use ccmock.Contexts.{ContextMap, Order, index_map, is_class_or_other, has_return_type}
use ccmock.Contexts.Laws.{IsNested, IsNamed}
use ccmock.Contexts.Links.{has_child, Link, here, outer, SomeLink}
use ccmock.Gmock.Members.{State, emit}
use ccmock.Gmock.Classes.{
  write_mock_method, write_mock_pointer_instance, open_class, close_class, write_named_class,
  write_class_of, write_mock_class,
}
use ccmock.Gmock.Appends.{Appends-write_config_pointer_name}
use ccmock.Contexts.Entries.{IsOrder, named_context}
use ccmock.Writer.Shows.{Puts-skip}
use ccmock.Gmock.Passes.{writer_of, Passes, Passes-emit, Passes-seq, Passes-for_each}

-- Every function among the contexts is a `FunctionDecl` with a mock name.
pub record HasFunctions (ast : Ast) : Type 0 where
  pub function_of :
      (c : ℕ)
      → is_class_or_other (ast.kind c) ≡ false
      → (d : FunctionDecl) × (ast.function c ≡ some d) × (name : String) × (mock_name d ≡ some name)

Appends-write_mock_method :
    (d : FunctionDecl) (n : ℕ) {name : String}
    → mock_name d ≡ some name
    → Appends (write_mock_method d n)
unfolding write_mock_method
Appends-write_mock_method d n e = Appends-seq (Appends-indent n) (
    Appends-seq (Appends-write "MOCK_METHOD((") (
      Appends-seq
        (Appends-if (has_return_type d) (Appends-write_return_type d) (Appends-write "void"))
        (Appends-seq (Appends-write "), ") (
          Appends-seq (Appends-write_mock_name d e)
            (search (appends, Appends-write_function_parameter_list))))))

module _ (ast : Ast) (named : IsNamed ast) (cfg : GmockSection) where
  pub Appends-open_class : (c : ℕ) (name : String) (n : ℕ) → Appends (open_class ast cfg c name n)
  unfolding open_class
  Appends-open_class c name n = search appends depth 12

  Appends-class_name :
      (c : ℕ)
      → Appends (
          if is_translation_unit (ast.kind c)
          then write cfg.class_name
          else with_name ast c (λ name. do write name; write "_"))
  Appends-class_name c =
      Appends-test (is_translation_unit (ast.kind c)) (λ e. Appends-write cfg.class_name)
        (λ e.
          let (name, called) = named_context ast named c e in
          Appends-with_name ast c _ called (search appends))

  Appends-write_mock_pointer_instance :
      (c n : ℕ) → Appends (write_mock_pointer_instance ast cfg c n)
  unfolding write_mock_pointer_instance
  Appends-write_mock_pointer_instance c n =
      search (appends, Appends-class_name, Appends-write_config_pointer_name) depth 12

  pub Appends-close_class :
      (c : ℕ) (children : List ℕ) (name : String) (n : ℕ)
      → Appends (close_class ast cfg c children name n)
  unfolding close_class
  Appends-close_class c children name n =
      search (appends, Appends-write_mock_pointer_instance) depth 12

  module _ (functions : HasFunctions ast) (order : Order) (ordered : IsOrder order)
      (start : ContextMap) (I : ContextMap → Type 0) (Walked : ℕ → Type 0)
      (children_of : (m : ContextMap) (c x : ℕ)
        → I m
        → mem_nat x (index_map c m).0 ≡ true
        → has_child start c x ≡ true)
      (keeps : (m : ContextMap) (c : ℕ) → I m → Walked c → I (index_map c m).1) where
    Passes-write_named_class :
        (again : ℕ → ℕ → Action State) (c : ℕ) (name : String) (n : ℕ)
        → Walked c
        → ((x k : ℕ) → has_child start c x ≡ true → Passes I (again x k))
        → Passes I (write_named_class ast order cfg again c name n)
    unfolding write_named_class
    Passes-write_named_class again c name n walked h = record {
      puts = λ s k.
          let children = (index_map c s.context_map).0 in
          (Passes-seq I (Passes-emit I (Appends-open_class c name n)) (
              Passes-seq I
                (Passes-for_each I (order.of_set children) _ (λ x e.
                  h x (n + 4) (children_of s.context_map c x k (ordered.of_set_mem x children e))))
                (Passes-emit I (Appends-close_class c children name n)))).puts
            (record s { context_map = (index_map c s.context_map).1 })
            (keeps s.context_map c k walked);
    }

    Passes-write_class_of :
        (again : ℕ → ℕ → Action State) (c n : ℕ)
        → (is_class_or_other (ast.kind c) ≡ true → Walked c)
        → ((x k : ℕ) → has_child start c x ≡ true → Passes I (again x k))
        → Passes I (write_class_of ast order cfg again c n)
    unfolding write_class_of
    Passes-write_class_of again c n walked h = go (ast.kind c) refl
      where
        class :
            is_translation_unit (ast.kind c) ≡ false
            → is_class_or_other (ast.kind c) ≡ true
            → Passes I (elim (ast.name c) [
              | none ↦ raise_fault
              | some name ↦ write_named_class ast order cfg again c name n
            ])
        class e f =
            let (name, called) = named_context ast named c e in
            rw called (Passes-write_named_class again c name n (walked f) h)

        method :
            is_class_or_other (ast.kind c) ≡ false
            → Passes I (elim (ast.function c) [
              | none ↦ raise_fault
              | some d ↦ emit (write_mock_method d n)
            ])
        method e =
            let (d, found, name, called) = functions.function_of c e in
            rw found (Passes-emit I (Appends-write_mock_method d n called))

        go :
            (k : DeclKind)
            → ast.kind c ≡ k
            → Passes I (elim k [
              | translation_unit ↦ write_named_class ast order cfg again c cfg.class_name n
              | namespace ↦ elim (ast.name c) [
                | none ↦ raise_fault
                | some name ↦ write_named_class ast order cfg again c name n
              ]
              | cxx_record ↦ elim (ast.name c) [
                | none ↦ raise_fault
                | some name ↦ write_named_class ast order cfg again c name n
              ]
              | other ↦ skip
              | _ ↦ elim (ast.function c) [
                | none ↦ raise_fault
                | some d ↦ emit (write_mock_method d n)
              ]
            ])
        go translation_unit e =
            Passes-write_named_class again c cfg.class_name n (walked (ap is_class_or_other e)) h
        go namespace e = class (ap is_translation_unit e) (ap is_class_or_other e)
        go cxx_record e = class (ap is_translation_unit e) (ap is_class_or_other e)
        go other e = Puts-skip writer_of (λ s. I s.context_map)
        go function e = method (ap is_class_or_other e)
        go cxx_constructor e = method (ap is_class_or_other e)
        go cxx_destructor e = method (ap is_class_or_other e)
        go cxx_conversion e = method (ap is_class_or_other e)
        go cxx_method e = method (ap is_class_or_other e)

    module _ (depth : ℕ → ℕ) (nested : IsNested ast depth)
        (deeper : (q x : ℕ) → has_child start q x ≡ true → depth q < depth x)
        (walk : (q x : ℕ)
          → has_child start q x ≡ true
          → is_class_or_other (ast.kind x) ≡ true
          → Walked x) where
      -- The walk ends before the fuel does, since the children lie deeper than their context.
      pub Passes-write_mock_class :
          (fuel c n : ℕ)
          → ast.nesting < fuel + depth c
          → (is_class_or_other (ast.kind c) ≡ true → Walked c)
          → Passes I (write_mock_class ast order cfg fuel c n)
      unfolding write_mock_class
      Passes-write_mock_class zero c n enough walked = absurd (omega (arith, nested.bounded c))
      Passes-write_mock_class (suc fuel) c n enough walked =
          Passes-write_class_of (write_mock_class ast order cfg fuel) c n walked
            (λ x k e. Passes-write_mock_class fuel x k (omega (arith, deeper c x e)) (walk c x e))

-- A context that is entered as a child is where some function's way out begins, or it has itself
-- been entered as a parent.
Link-step :
    (ast : Ast) {context : ℕ} {parent : Option ℕ} {q x : ℕ}
    → Link ast context parent q x
    → (x ≡ context) ⊎ ((y : ℕ) × Link ast context parent x y)
Link-step ast (here e f) = inl f
Link-step ast (outer {context = context} link) = elim (Link-step ast link) [
  | inl e ↦ inr (context, here e refl)
  | inr (y, later) ↦ inr (y, outer later)
]

pub SomeLink-step :
    (ast : Ast) (ds : List FunctionDecl) (q x : ℕ)
    → SomeLink ast ds q x
    → is_class_or_other (ast.kind x) ≡ true
    → All (λ d. is_class_or_other (ast.kind (ast.primary d.context)) ≡ false) ds
    → (y : ℕ) × SomeLink ast ds x y
SomeLink-step ast [] q x link class own = absurd link
SomeLink-step ast (d ∷ ds) q x (inr later) class own =
    let (y, more) = SomeLink-step ast ds q x later class own.1 in (y, inr more)
SomeLink-step ast (d ∷ ds) q x (inl link) class own = elim (Link-step ast link) [
  | inl e ↦ absurd (ground (arith, e, own.0))
  | inr (y, later) ↦ (y, inl later)
]
