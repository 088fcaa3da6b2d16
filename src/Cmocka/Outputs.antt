-- ===== src/Cmocka/Outputs.antt =====
-- output/CMocka.cpp: `mock_ptr` is used only where it is declared.
use mathlib.Core.Path.{fun_ext}
use ccmock.Base.{
  ℕ, suc, true, false, List, [], ◌∷◌, ◌≡◌, refl, arith, any, inl, inr, Bool-cases, ok, ◌>>◌, when,
  for_each_from,
}
use ccmock.Ast.{FunctionDecl, ParmVarDecl}
use ccmock.Config.{CmockaSection}
use ccmock.Writer.{Writer, write}
use ccmock.Cmocka.{
  is_out_param, write_check, write_output_parameter, write_return, write_function_body,
}

outputs-skip :
    (i : ℕ) (ps : List ParmVarDecl) (w : Writer)
    → any is_out_param ps ≡ false
    → for_each_from i ps write_output_parameter w ≡ ok w
unfolding write_output_parameter
outputs-skip i [] w h = refl
outputs-skip i (p ∷ ps) w h = ground (arith, outputs-skip (suc i) ps w)

-- If no parameter points to something that the callee may write, the body neither declares
-- `mock_ptr` nor writes a statement that uses it for a parameter: with output parameters enabled,
-- it has an empty line in their place.
pub write_function_body-is_out_param :
    (cfg : CmockaSection) (d : FunctionDecl) (w : Writer)
    → any is_out_param d.parameters ≡ false
    → write_function_body cfg d w
      ≡ (do
        write "{\n"
        when cfg.strict_mocks (write "    function_called();\n")
        when
            (elim d.parameters [ [] ↦ false | p ∷ ps ↦ true ])
            (do write "\n"; for_each_from 0 d.parameters write_check)
        when cfg.output_parameters (write "\n")
        write_return d.return_type
        write "}\n")
          w
unfolding write_function_body
write_function_body-is_out_param cfg d w h = elim (Bool-cases cfg.output_parameters) [
  | inl e ↦ rw (write_function_body, h, fun_ext (λ v. outputs-skip 0 d.parameters v h), e) refl
  | inr e ↦ rw (write_function_body, h, fun_ext (λ v. outputs-skip 0 d.parameters v h), e) refl
]
