-- ===== src/Gmock/Functions.antt =====
-- output/GMock.cpp: the mock functions are always written.
use ccmock.Base.{
  ℕ, true, false, not, none, some, List, [], ◌∷◌, ◌≡◌, refl, arith, is_empty, last?, length,
  decimal, if◌then◌else◌, ◌>>◌, raise_fault, for_each_from, when,
}
use ccmock.Ast.{Ast, FunctionDecl, ParmVarDecl}
use ccmock.Config.{GmockSection}
use ccmock.Writer.{write, write_mock_name, write_fully_qualified_name}
use ccmock.Writer.Appends.{
  Appends, appends, Appends-write, Appends-seq, Appends-test, Appends-when, Appends-for_each_from,
  Appends-write_return_type, Appends-write_function_specifiers,
  Appends-write_function_reference_qualifiers, Appends-write_mock_name,
}
use ccmock.Writer.Parameters.{Appends-write_function_parameter_list}
use ccmock.Contexts.Laws.{IsNested, IsNamed}
use ccmock.Gmock.Names.{write_mock_pointer_access}
use ccmock.Gmock.Calls.{
  write_argument, write_call_argument, write_last_argument, write_mock_call_pointer_access,
  write_mock_call, write_pointer_guard, write_function_body, write_function, is_structor,
}
use ccmock.Gmock.Appends.{
  IsWritable, HasParent, Appends-write_mock_pointer_access, Appends-write_mock_call_pointer_access,
}

Appends-write_argument : (i : ℕ) (p : ParmVarDecl) → Appends (write_argument i p)
unfolding write_argument
Appends-write_argument i p = search appends

Appends-write_call_argument : (i : ℕ) (p : ParmVarDecl) → Appends (write_call_argument i p)
unfolding write_call_argument
Appends-write_call_argument i p = search (appends, Appends-write_argument) depth 12

last?-some :
    (p : ParmVarDecl) (ps : List ParmVarDecl) → (q : ParmVarDecl) × (last? (p ∷ ps) ≡ some q)
last?-some p [] = (p, refl)
last?-some p (r ∷ ps) = last?-some r ps

-- `va_start` gets an argument wherever there is a parameter.
pub Appends-write_last_argument :
    (ps : List ParmVarDecl)
    → (elim ps [ [] ↦ true | p ∷ rest ↦ false ]) ≡ false
    → Appends (write_last_argument ps)
unfolding write_last_argument
Appends-write_last_argument [] h = absurd (ground arith)
Appends-write_last_argument (p ∷ ps) h =
    let (q, e) = last?-some p ps in
    record { runs = λ w. let (s, k) = (argument q).runs w in (s, rw (write_last_argument, e) k) }
  where
    argument :
        (q : ParmVarDecl)
        → Appends (
            if not (is_empty q.name)
            then write q.name
            else (do write "arg"; write (decimal (length (p ∷ ps)))))
    argument q = search appends

Appends-write_call_arguments :
    (ps : List ParmVarDecl) → Appends (for_each_from 0 ps write_call_argument)
Appends-write_call_arguments ps = Appends-for_each_from 0 ps Appends-write_call_argument

module _ (ast : Ast) (depth : ℕ → ℕ) (nested : IsNested ast depth) (named : IsNamed ast)
    (cfg : GmockSection) where
  Appends-mock_name : (d : FunctionDecl) → IsWritable ast d → Appends (write_mock_name d)
  Appends-mock_name d h = Appends-write_mock_name d h.called.1

  pub Appends-call_access :
      (d : FunctionDecl) → IsWritable ast d → Appends (write_mock_call_pointer_access ast cfg d)
  Appends-call_access d h =
      Appends-write_mock_call_pointer_access ast depth nested named cfg d h.enclosed

  Appends-write_mock_call :
      (d : FunctionDecl) → IsWritable ast d → Appends (write_mock_call ast cfg d)
  unfolding write_mock_call
  Appends-write_mock_call d h =
      search (appends, Appends-call_access, Appends-mock_name, Appends-write_call_arguments) depth
        12

  pub Appends-write_pointer_guard :
      (d : FunctionDecl) → IsWritable ast d → Appends (write_pointer_guard ast cfg d)
  unfolding write_pointer_guard
  Appends-write_pointer_guard d h = Appends-when (is_structor d.kind) (go h.enclosed)
    where
      test :
          (parent : ℕ)
          → Appends (do
            write "    if (!"
            write_mock_pointer_access ast cfg parent 0
            write ")\n        return;\n\n")
      test parent = search (appends, Appends-write_mock_pointer_access)

      go :
          HasParent ast d.context
          → Appends (elim (ast.parent d.context) [
            | none ↦ raise_fault
            | some parent ↦ (do
              write "    if (!"
              write_mock_pointer_access ast cfg parent 0
              write ")\n        return;\n\n")
          ])
      go (parent, e) = rw e (test parent)

  Appends-block :
      (d : FunctionDecl)
      → IsWritable ast d
      → Appends (do
        write_pointer_guard ast cfg d
        if not d.is_variadic
            then (do
              write "    "
              when (not d.return_type.is_void_type) (write "return ")
              write_mock_call ast cfg d
              write "}\n")
            else (do
              write "    va_list vargs_;\n\n    va_start(vargs_, "
              write_last_argument d.parameters
              write ");\n    "
              when (not d.return_type.is_void_type) (write "auto ccmock_val_ = ")
              write_mock_call ast cfg d
              write "    va_end(vargs_);\n"
              when (not d.return_type.is_void_type) (write "\n    return ccmock_val_;\n")
              write "}\n"))
  Appends-block d h = Appends-seq (Appends-write_pointer_guard d h) (
      Appends-test (not d.is_variadic) (λ plain. search (appends, Appends-write_mock_call) depth 12)
        (λ variadic. Appends-seq (Appends-write "    va_list vargs_;\n\n    va_start(vargs_, ") (
          Appends-seq (Appends-write_last_argument d.parameters (h.parameters (ground arith)))
            (search (appends, Appends-write_mock_call) depth 20))))

  Appends-write_function_body :
      (d : FunctionDecl) → IsWritable ast d → Appends (write_function_body ast cfg d)
  unfolding write_function_body
  Appends-write_function_body d h = Appends-seq (Appends-write "{\n") (Appends-block d h)

  pub Appends-write_function :
      (d : FunctionDecl) → IsWritable ast d → Appends (write_function ast cfg d)
  unfolding write_function write_fully_qualified_name
  Appends-write_function d h =
      search
        (
          appends, Appends-write_return_type, Appends-write_function_parameter_list,
          Appends-write_function_specifiers, Appends-write_function_reference_qualifiers,
          Appends-write_function_body,
        )
        depth 20
