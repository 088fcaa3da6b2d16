-- ===== src/Cmocka/Texts.antt =====
-- output/CMocka.cpp, `writeFunctionBody`: the exact text of a body.
use ccmock.Base.{ℕ, String, true, false, not, ◌&&◌, [], ◌∷◌, ◌<>◌, if◌then◌else◌, is_empty, any}
use ccmock.Ast.{Policy, FunctionDecl, ParmVarDecl, QualType}
use ccmock.Config.{CmockaSection}
use ccmock.Writer.{argument_name}
use ccmock.Writer.ParameterList.{argument_of}
use ccmock.Writer.Texts.{
  Writes, Writes-write, Writes-seq, Writes-if, Writes-when, Writes-skip, Writes-write_type,
  Writes-for_each_from, concat_from,
}
use ccmock.Cmocka.{
  is_out_param, write_argument, write_check, write_output_parameter, write_return,
  write_function_body,
}

-- the check of a parameter
abbrev pub check_text : ℕ → ParmVarDecl → String
check_text i p =
    (if p.type.is_pointer_type then "    check_expected_ptr(" else "    check_expected(")
    <> (argument_of i p <> ");\n")

-- the assignment to an output parameter
abbrev pub output_text : Policy → ℕ → ParmVarDecl → String
output_text policy i p =
    if not (is_out_param p)
    then ""
    else "    mock_ptr = mock_ptr_type("
      <> (p.type.printed policy ""
          <> (");\n    if (mock_ptr)\n        memmove("
              <> (argument_of i p <> (", mock_ptr, sizeof(*" <> (argument_of i p <> "));\n\n")))))

abbrev pub return_text : Policy → QualType → String
return_text policy type =
    if not type.is_void_type
    then "\n    return "
      <> ((if type.is_pointer_type then "mock_ptr_type(" else "mock_type(")
          <> (type.printed policy "" <> ");\n"))
    else ""

abbrev pub body_text : Policy → CmockaSection → FunctionDecl → String
body_text policy cfg d =
    "{\n"
    <> ((if cfg.output_parameters && any is_out_param d.parameters
          then "    const void *mock_ptr;\n\n"
          else "")
        <> ((if cfg.strict_mocks then "    function_called();\n" else "")
            <> ((if elim d.parameters [ [] ↦ false | p ∷ ps ↦ true ]
                  then "\n" <> concat_from 0 d.parameters check_text
                  else "")
                <> ((if cfg.output_parameters
                      then "\n" <> concat_from 0 d.parameters (output_text policy)
                      else "")
                    <> (return_text policy d.return_type <> "}\n")))))

Writes-write_argument :
    (i : ℕ) (p : ParmVarDecl) → Writes (write_argument i p) (λ policy. argument_of i p)
unfolding write_argument argument_name
Writes-write_argument i p =
    Writes-if (not (is_empty p.name)) (Writes-write p.name)
      (Writes-seq (Writes-write "arg") (Writes-write _))

Writes-write_check : (i : ℕ) (p : ParmVarDecl) → Writes (write_check i p) (λ policy. check_text i p)
unfolding write_check
Writes-write_check i p =
    Writes-seq (Writes-if p.type.is_pointer_type (Writes-write _) (Writes-write _))
      (Writes-seq (Writes-write_argument i p) (Writes-write _))

Writes-write_output_parameter :
    (i : ℕ) (p : ParmVarDecl)
    → Writes (write_output_parameter i p) (λ policy. output_text policy i p)
unfolding write_output_parameter
Writes-write_output_parameter i p = Writes-if (not (is_out_param p)) Writes-skip (
    Writes-seq (Writes-write _) (
      Writes-seq (Writes-write_type p.type "") (
        Writes-seq (Writes-write _) (
          Writes-seq (Writes-write_argument i p) (
            Writes-seq (Writes-write _)
              (Writes-seq (Writes-write_argument i p) (Writes-write _)))))))

Writes-write_return :
    (type : QualType) → Writes (write_return type) (λ policy. return_text policy type)
unfolding write_return
Writes-write_return type = Writes-when (not type.is_void_type) (
    Writes-seq (Writes-write _) (
      Writes-seq (Writes-if type.is_pointer_type (Writes-write _) (Writes-write _))
        (Writes-seq (Writes-write_type type "") (Writes-write _))))

pub Writes-write_function_body :
    (cfg : CmockaSection) (d : FunctionDecl)
    → Writes (write_function_body cfg d) (λ policy. body_text policy cfg d)
unfolding write_function_body
Writes-write_function_body cfg d = Writes-seq (Writes-write "{\n") (
    Writes-seq
      (Writes-when (cfg.output_parameters && any is_out_param d.parameters) (Writes-write _))
      (Writes-seq (Writes-when cfg.strict_mocks (Writes-write _)) (
        Writes-seq
          (Writes-when (elim d.parameters [ [] ↦ false | p ∷ ps ↦ true ])
            (Writes-seq (Writes-write "\n")
              (Writes-for_each_from 0 d.parameters Writes-write_check)))
          (Writes-seq
            (Writes-when cfg.output_parameters (
              Writes-seq (Writes-write "\n")
                (Writes-for_each_from 0 d.parameters Writes-write_output_parameter)))
            (Writes-seq (Writes-write_return d.return_type) (Writes-write "}\n"))))))
