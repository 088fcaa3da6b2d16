-- ===== src/Gmock/Nameless.antt =====
-- output/GMock.cpp: a function inside a context that has no name, as an `extern "C"` block has none.
use mathlib.Core.List.{reverse}
use ccmock.Base.{
  ℕ, ◌<◌, false, none, some, ◌≡◌, refl, ap, ◌∙◌, arith, ok, fault, bind, for_each, ◌<>◌,
}
use ccmock.Ast.{Ast, is_translation_unit, FunctionDecl}
use ccmock.Config.{GmockSection}
use ccmock.Writer.{Writer, with_name}
use ccmock.Gmock.Names.{pop_back, for_enclosing}
use ccmock.Gmock.Calls.{write_call_context, write_mock_call_pointer_access, write_mock_call}
use ccmock.Gmock.Pointers.{collect_all_contexts-global}

module _ (ast : Ast) (cfg : GmockSection) where
  call_context-fault :
      (c : ℕ) (w : Writer) → ast.name c ≡ none → write_call_context ast cfg c w ≡ fault
  unfolding write_call_context
  call_context-fault c w e = rw (with_name, e) refl

  enclosing-fault :
      (c p : ℕ) (w : Writer)
      → 0 < ast.nesting
      → ast.parent c ≡ some p
      → ast.parent p ≡ none
      → ast.name c ≡ none
      → for_enclosing ast c (write_call_context ast cfg) w ≡ fault
  unfolding for_enclosing
  enclosing-fault c p w enough e root nameless =
      ap (λ cs. pop_back cs (λ vec. for_each (reverse vec) (write_call_context ast cfg)) w)
        (collect_all_contexts-global ast ast.nesting c p e root enough)
      ∙ ap (λ o. bind o ok) (call_context-fault c w nameless)

  -- The call in a mock function has no defined meaning if the function stands in a context that
  -- has no name and is itself not the translation unit but directly inside it.
  pub write_mock_call-fault :
      (d : FunctionDecl) (c p : ℕ) (w : Writer)
      → 0 < ast.nesting
      → ast.parent d.context ≡ some c
      → ast.parent c ≡ some p
      → ast.parent p ≡ none
      → is_translation_unit (ast.kind c) ≡ false
      → ast.name c ≡ none
      → write_mock_call ast cfg d w ≡ fault
  unfolding write_mock_call write_mock_call_pointer_access
  write_mock_call-fault d c p w enough inside e root block nameless = ground (
    arith,
    enclosing-fault c p (record w { buffer = (w.buffer <> "(*") <> cfg.class_name }) enough e root
        nameless,
  )
