-- ===== src/Gmock/Pointers.antt =====
-- output/GMock.cpp: the classes of the mock pointers, and the objects of the fixture that they point
-- to.
use mathlib.Core.Path.{refl}
use mathlib.Core.List.{reverse}
use ccmock.Base.{
  ℕ, zero, suc, ◌<◌, if◌then◌else◌, true, false, none, some, [], ◌∷◌, ◌≡◌, ◌↔◌, ap, ◌∙◌, sym,
  String, ◌⊎◌, ◌<>◌, <>-cancel, inl, inr, arith, Option-cases, Bool-cases, Action, ok, bind_unit,
  ◌>>◌, for_each,
}
use ccmock.Ast.{Ast, is_translation_unit}
use ccmock.Config.{GmockSection}
use ccmock.Writer.{Writer, append, write, with_name}
use ccmock.Writer.Appends.{append-append, append-empty}
use ccmock.Contexts.{is_global_context, collect_all_contexts}
use ccmock.Contexts.Laws.{IsNested, IsNamed}
use ccmock.Gmock.Names.{pop_back, for_enclosing, top_context, write_qualified_mock_declaration_name}
use ccmock.Gmock.Fixture.{write_fixture_variable_access, write_fixture_variable_name}

module _ (ast : Ast) where
  pub collect_all_contexts-root :
      (fuel c : ℕ) → ast.parent c ≡ none → collect_all_contexts ast (suc fuel) (some c) ≡ c ∷ []
  unfolding collect_all_contexts
  collect_all_contexts-root zero c e = refl
  collect_all_contexts-root (suc fuel) c e = rw e refl

  pub collect_all_contexts-global :
      (fuel c p : ℕ)
      → ast.parent c ≡ some p
      → ast.parent p ≡ none
      → 0 < fuel
      → collect_all_contexts ast (suc fuel) (some c) ≡ c ∷ p ∷ []
  unfolding collect_all_contexts
  collect_all_contexts-global zero c p e root enough = absurd (omega arith)
  collect_all_contexts-global (suc fuel) c p e root enough =
      rw e (ap (◌∷◌ c) (collect_all_contexts-root fuel p root))

-- The mock class of a global context.
abbrev pub class_of : Ast → GmockSection → ℕ → String
class_of ast cfg c =
    cfg.class_name <> elim (ast.name c) [ none ↦ "" | some name ↦ "::" <> (name <> "_") ]

module _ (ast : Ast) (depth : ℕ → ℕ) (nested : IsNested ast depth) (named : IsNamed ast) where
  -- The walk outwards ends at a global context.
  pub top_context-global :
      (fuel c : ℕ) → depth c < fuel → is_global_context ast (top_context ast fuel c) ≡ true
  unfolding is_global_context top_context
  top_context-global zero c enough = absurd (omega arith)
  top_context-global (suc fuel) c enough = elim (Option-cases (ast.parent c)) [
    | inl e ↦ ground arith
    | inr (p, e) ↦ elim (Bool-cases (is_translation_unit (ast.kind p))) [
      | inl unit ↦ ground arith
      | inr inner ↦
          ground (arith, top_context-global fuel p (omega (arith, nested.parent_depth c p e)))
    ]
  ]

  for_enclosing-root :
      (c : ℕ) (body : ℕ → Action Writer) (w : Writer)
      → ast.parent c ≡ none
      → for_enclosing ast c body w ≡ ok w
  unfolding for_enclosing
  for_enclosing-root c body w e =
      ap (λ cs. pop_back cs (λ vec. for_each (reverse vec) body) w)
        (collect_all_contexts-root ast ast.nesting c e)

  for_enclosing-global :
      (c p : ℕ) (body : ℕ → Action Writer) (w : Writer)
      → ast.parent c ≡ some p
      → is_global_context ast c ≡ true
      → for_enclosing ast c body w ≡ body c w
  unfolding for_enclosing is_global_context
  for_enclosing-global c p body w e global =
      ap (λ cs. pop_back cs (λ vec. for_each (reverse vec) body) w)
        (collect_all_contexts-global ast ast.nesting c p e (named.root_parent p (ground arith))
          (omega (arith, nested.bounded c, nested.parent_depth c p e)))
      ∙ bind_unit (body c w)

  module _ (cfg : GmockSection) where
    -- The qualified name of a class in the outermost contexts is the mock class of that context.
    pub write_qualified_mock_declaration_name-global :
        (c : ℕ) (w : Writer)
        → is_global_context ast c ≡ true
        → write_qualified_mock_declaration_name ast cfg c w ≡ ok (append (class_of ast cfg c) w)
    unfolding write_qualified_mock_declaration_name with_name
    write_qualified_mock_declaration_name-global c w global = elim (Option-cases (ast.parent c)) [
      | inl e ↦
          let body : ℕ → Action Writer =
            λ item. with_name ast item (λ name. do write "::"; write name; write "_") in
          for_enclosing-root c body (append cfg.class_name w) e
          ∙ rw (class_of, named.root_name c e)
              (ap ok
                (sym (append-empty (append cfg.class_name w)) ∙ append-append cfg.class_name "" w))
      | inr (p, e) ↦
          let (name, called) = named.inner_name c p e in
          let body : ℕ → Action Writer =
            λ item. with_name ast item (λ name. do write "::"; write name; write "_") in
          for_enclosing-global c p body (append cfg.class_name w) e global
          ∙ rw (with_name, class_of, called)
              (ap ok (
                append-append name "_" (append "::" (append cfg.class_name w))
                ∙ append-append "::" (name <> "_") (append cfg.class_name w)
                ∙ append-append cfg.class_name ("::" <> (name <> "_")) w))
    ]

    fixture_access-global :
        (c : ℕ) (w : Writer)
        → is_global_context ast c ≡ true
        → write_fixture_variable_access ast cfg c w
          ≡ (do
            write "(*this)"
            write "."
            if is_translation_unit (ast.kind c)
                then write cfg.global_namespace_name
                else write_fixture_variable_name ast c)
              w
    unfolding write_fixture_variable_access write_fixture_variable_name with_name
    fixture_access-global c w global = elim (Option-cases (ast.parent c)) [
      | inl e ↦ ground (arith, named.root_kind c e)
      | inr (p, e) ↦
          let (name, called) = named.inner_name c p e in
          ground (
            arith,
            called,
            named.root_parent c,
            for_enclosing-global c p (λ item. with_name ast item (λ name. do write "."; write name))
                (append "(*this)" w) e global,
          )
    ]

    -- `SetUp` reads the very member that the fixture declares for a global context, unless that
    -- context is the translation unit: there the two agree only if the configured name is `_`.
    pub write_fixture_variable_access-write_fixture_variable_name :
        (c : ℕ) (w : Writer)
        → is_global_context ast c ≡ true
        → (write_fixture_variable_access ast cfg c w
            ≡ (do write "(*this)"; write "."; write_fixture_variable_name ast c) w)
          ↔ ((is_translation_unit (ast.kind c) ≡ false) ⊎ (cfg.global_namespace_name ≡ "_"))
    unfolding write_fixture_variable_name
    write_fixture_variable_access-write_fixture_variable_name c w global =
        elim (Bool-cases (is_translation_unit (ast.kind c))) [
          | inr inner ↦ (λ h. inl inner, λ h. ground (arith, fixture_access-global c w global))
          | inl unit ↦ (
            λ h. inr (
                <>-cancel ((w.buffer <> "(*this)") <> ".") cfg.global_namespace_name "_"
                  (ground (arith, fixture_access-global c w global))),
            λ h. ground (arith, fixture_access-global c w global),
          )
        ]
