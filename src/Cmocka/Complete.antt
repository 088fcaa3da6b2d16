-- ===== src/Cmocka/Complete.antt =====
-- output/CMocka.cpp: the exact text of a mock function, which every function has in the output.
use text.Mathlib.TextLemmas.{nil-append}
use ccmock.Base.{
  String, true, false, List, [], ◌∷◌, ◌≡◌, sym, ◌∙◌, ◌<>◌, <>-empty, if◌then◌else◌, All, ok,
}
use ccmock.Ast.{Policy, FunctionDecl, VarDecl}
use ccmock.Config.{CmockaSection}
use ccmock.Writer.{Writer, append, write_fully_qualified_name, write_function_parameter_list}
use ccmock.Writer.Appends.{Appends, Appends-write}
use ccmock.Writer.Separated.{Texts}
use ccmock.Writer.ParameterList.{
  Declares, list_text, ellipsis, write_function_parameter_list-Declares,
}
use ccmock.Writer.Shows.{IsLocal, All-IsLocal, for_each-Says}
use ccmock.Writer.Texts.{
  Writes-write, Writes-when, Writes-write_return_type, At-Writes, At-write, At-seq, Holds,
  Holds-left, Holds-right,
}
use ccmock.Generator.{write_macro_definitions, write_global_variables}
use ccmock.Generator.Variables.{
  HasVariables, HasVariables-IsLocal, write_global_variables-HasVariables,
}
use ccmock.Generator.Appends.{Appends-write_macro_definitions}
use ccmock.Cmocka.{write_include_directives, write_mock_function, write_mock_functions, run}
use ccmock.Cmocka.Texts.{body_text, Writes-write_function_body}

abbrev pub function_text : Policy → CmockaSection → FunctionDecl → List String → String
function_text policy cfg d declarations =
    (if d.is_extern_c then "CCMOCK_LINKAGE " else "")
    <> (d.return_type.printed policy ""
        <> ("\n"
            <> (d.qualified_name
                <> (list_text policy (ellipsis d false) d.parameters declarations
                    <> ("\n" <> (body_text policy cfg d <> "\n"))))))

-- The text defines this function: with its linkage, return type and qualified name, a declaration
-- of each parameter, and the body.
abbrev pub IsDefined : CmockaSection → FunctionDecl → Policy → String → Type 0
IsDefined cfg d policy text =
    (declarations : List String) × Texts (Declares policy) 0 d.parameters declarations
    × Holds (function_text policy cfg d declarations) text

pub IsDefined-IsLocal : (cfg : CmockaSection) (d : FunctionDecl) → IsLocal (IsDefined cfg d)
IsDefined-IsLocal cfg d = record {
  left = λ policy s t (ts, all, h). (ts, all, Holds-left (function_text policy cfg d ts) s t h);
  right = λ policy s t (ts, all, h). (ts, all, Holds-right (function_text policy cfg d ts) s t h);
}

write_mock_function-IsDefined :
    (cfg : CmockaSection) (d : FunctionDecl) (w : Writer)
    → (text : String) × (write_mock_function cfg d w ≡ ok (append text w))
      × IsDefined cfg d w.policy text
unfolding write_mock_function write_fully_qualified_name
write_mock_function-IsDefined cfg d w =
    let linkage = if d.is_extern_c then "CCMOCK_LINKAGE " else "" in
    let behind_name =
      append d.qualified_name
        (append "\n" (append (d.return_type.printed w.policy "") (append linkage w))) in
    let (ts, all, list) = write_function_parameter_list-Declares d false behind_name in
    let text = function_text w.policy cfg d ts in
    (
      text,
      (At-seq (At-Writes (Writes-when d.is_extern_c (Writes-write "CCMOCK_LINKAGE "))) (
          At-seq (At-Writes (Writes-write_return_type d)) (
            At-seq (At-write "\n") (
              At-seq (At-write d.qualified_name) (
                At-seq {m = write_function_parameter_list d true false} (record { at = list })
                  (At-seq (At-write "\n") (
                    At-seq (At-Writes (Writes-write_function_body cfg d)) (At-write "\n")))))))).at,
      (ts, all, ("", "", sym (nil-append _ ∙ <>-empty text))),
    )

write_mock_functions-IsDefined :
    (cfg : CmockaSection) (ds : List FunctionDecl)
    → All {0, 0} (λ d. Unit) ds
    → (w : Writer)
    → (text : String) × (write_mock_functions cfg ds w ≡ ok (append text w))
      × All (λ d. IsDefined cfg d w.policy text) ds
unfolding write_mock_functions
write_mock_functions-IsDefined cfg ds h w =
    for_each-Says (IsDefined cfg) (IsDefined-IsLocal cfg) (write_mock_function cfg) (λ d. Unit)
      (λ d fits v. write_mock_function-IsDefined cfg d v) ds h w

All-Unit : (ds : List FunctionDecl) → All {0, 0} (λ d. Unit) ds
All-Unit [] = tt
All-Unit (d ∷ ds) = (tt, All-Unit ds)

Appends-write_include_directives : Appends write_include_directives
unfolding write_include_directives
Appends-write_include_directives = Appends-write _

-- The CMocka backend always succeeds, does nothing to the writer but put some text behind the
-- buffer, and that text defines each of the functions: the body declares `mock_ptr` if there is an
-- output parameter to set, checks each parameter by the name that the list declares, sets the
-- output parameters and returns a mocked value, unless the configuration or the types spare it. The
-- text holds the variables, too.
pub run-IsDefined :
    (cfg : CmockaSection) (functions : List FunctionDecl) (vars : List VarDecl) (w : Writer)
    → (text : String) × (run cfg functions vars w ≡ ok (append text w))
      × All (λ d. IsDefined cfg d w.policy text) functions
      × HasVariables vars w.policy text
unfolding run
run-IsDefined cfg functions vars w =
    let (includes, e) = Appends-write_include_directives.runs w in
    let (macros, f) = Appends-write_macro_definitions.runs (append includes w) in
    let (globals, g, has) =
      write_global_variables-HasVariables vars (append macros (append includes w)) in
    let (text, h, all) =
      write_mock_functions-IsDefined cfg functions (All-Unit functions)
        (append globals (append macros (append includes w))) in
    let local = All-IsLocal (IsDefined cfg) (IsDefined-IsLocal cfg) functions in
    let variables = HasVariables-IsLocal vars in
    (
      includes <> (macros <> (globals <> text)),
      (At-seq {m = write_include_directives} (record { at = e })
          (At-seq {m = write_macro_definitions} (record { at = f })
            (At-seq {m = write_global_variables vars} {k = write_mock_functions cfg functions}
              (record { at = g }) (record { at = h })))).at,
      local.right w.policy includes (macros <> (globals <> text))
          (local.right w.policy macros (globals <> text) (local.right w.policy globals text all)),
      variables.right w.policy includes (macros <> (globals <> text)) (
          variables.right w.policy macros (globals <> text)
            (variables.left w.policy globals text has)),
    )
