-- ===== src/Gmock/Names.antt =====
-- output/GMock.cpp: the names of the mock classes and of their pointers.
use Prim.Native.Char.{code}
use mathlib.Core.List.{reverse}
use ccmock.Base.{
  ℕ, zero, suc, String, Bool, true, false, not, ◌&&◌, none, some, List, [], ◌∷◌, ◌==◌,
  if◌then◌else◌, is_empty, Action, ◌>>◌, skip, for_each, raise_fault,
}
use ccmock.Ast.{Ast, is_translation_unit}
use ccmock.Config.{GmockSection}
use ccmock.Writer.{Writer, write, indent, with_name}
use ccmock.Contexts.{is_global_context, contains_function_decls, collect_all_contexts}

-- `Vec.pop_back()`: a fault on the empty vector.
abbrev pub pop_back : List ℕ → (List ℕ → Action Writer) → Action Writer
pop_back [] k = raise_fault
pop_back (c ∷ []) k = k []
pop_back (c ∷ d ∷ cs) k = pop_back (d ∷ cs) (λ rest. k (c ∷ rest))

-- `Name.rtrim('_')`
unfoldable pub rtrim : String → String
rtrim String.[] = ""
rtrim (String.◌∷◌ c s) =
    let rest = rtrim s in if is_empty rest && code c == b'_' then "" else String.◌∷◌ c rest

unfoldable pub write_config_pointer_name : GmockSection → Action Writer
unfolding rtrim
write_config_pointer_name cfg = do write (rtrim cfg.class_name); write "_ptr_"

module _ (ast : Ast) where
  unfoldable pub requires_pointer_variable : ℕ → List ℕ → Bool
  unfolding is_global_context contains_function_decls
  requires_pointer_variable context children =
      if not (is_global_context ast context)
      then false
      else if not (is_translation_unit (ast.kind context))
      then true
      else contains_function_decls ast children

  -- The contexts that enclose `context`, itself included, from the outside in and without the
  -- translation unit, which is the last of those collected.
  unfoldable pub for_enclosing : ℕ → (ℕ → Action Writer) → Action Writer
  unfolding collect_all_contexts
  for_enclosing context body =
      pop_back (collect_all_contexts ast (suc ast.nesting) (some context))
        (λ vec. for_each (reverse vec) body)

  -- The walk to the outermost context inside the translation unit.
  unfoldable pub top_context : ℕ → ℕ → ℕ
  top_context zero context = context
  top_context (suc fuel) context = elim (ast.parent context) [
    | none ↦ context
    | some p ↦ elim (is_translation_unit (ast.kind p)) [
      | true ↦ context
      | false ↦ top_context fuel p
    ]
  ]

  module _ (cfg : GmockSection) where
    unfoldable pub write_mock_pointer_access : ℕ → ℕ → Action Writer
    unfolding top_context write_config_pointer_name
    write_mock_pointer_access context n = do
      indent n
      write cfg.class_name
      elim (ast.name (top_context (suc ast.nesting) context)) [
        | none ↦ skip
        | some name ↦ (do write "::"; write name; write "_")
      ]
      write "::"
      write_config_pointer_name cfg

    unfoldable pub write_qualified_mock_declaration_name : ℕ → Action Writer
    unfolding for_enclosing with_name
    write_qualified_mock_declaration_name context = do
      write cfg.class_name
      for_enclosing context
          (λ item. with_name ast item (λ name. do write "::"; write name; write "_"))
