-- ===== src/Gmock/Bodies.antt =====
-- output/GMock.cpp, `writeFunctionBody` and `writeMockCall`: the text of a mock function's body.
use ccmock.Base.{
  ℕ, String, Bool, true, false, not, inl, inr, Bool-cases, some, List, ◌≡◌, refl, ap, ◌<>◌,
  if◌then◌else◌, Action, ok, for_each_from,
}
use ccmock.Ast.{Ast, FunctionDecl}
use ccmock.Config.{GmockSection}
use ccmock.Writer.{Writer, append, mock_name, write_mock_name}
use ccmock.Writer.Separated.{join, Texts}
use ccmock.Writer.Texts.{Writes-write, Writes-when, At, At-Writes, At-write, At-seq}
use ccmock.Contexts.Laws.{IsNested, IsNamed}
use ccmock.Gmock.Calls.{
  write_call_argument, write_last_argument, write_mock_call_pointer_access, write_mock_call,
  write_pointer_guard, write_function_body,
}
use ccmock.Gmock.Appends.{IsWritable}
use ccmock.Gmock.CallText.{passed, write_call_argument-passed}
use ccmock.Gmock.Functions.{
  Appends-call_access, Appends-write_pointer_guard, Appends-write_last_argument,
}

-- The statement writes this text, in some state of the writer.
abbrev pub IsOutput : Action Writer → String → Type 0
IsOutput m text = (v : Writer) × (m v ≡ ok (append text v))

pub At-write_mock_name :
    (d : FunctionDecl) {name : String} {w : Writer}
    → mock_name d ≡ some name
    → At w (write_mock_name d) name
unfolding write_mock_name
At-write_mock_name d e = record { at = rw (write_mock_name, e) refl }

abbrev pub call_text : FunctionDecl → String → String → List String → String
call_text d access name arguments =
    access
    <> (name <> ("(" <> (join arguments <> ((if d.is_variadic then ", vargs_" else "") <> ");\n"))))

-- The text calls the mock method of this function, by its mock name and with its parameters,
-- through the pointer that `writeMockCallPointerAccess` writes.
abbrev pub IsCall : Ast → GmockSection → FunctionDecl → String → Type 0
IsCall ast cfg d text =
    (access : String) × (name : String) × (arguments : List String) × IsOutput
      (write_mock_call_pointer_access ast cfg d) access
    × (mock_name d ≡ some name)
    × Texts (λ i p t. t ≡ passed i p) 0 d.parameters arguments
    × (text ≡ call_text d access name arguments)

-- The text is the body of this function: the guard of a constructor or destructor, and a call of
-- the mock method, whose value it returns, if there is one; around the call a variadic function
-- starts and ends its list of arguments.
pub data IsBody (ast : Ast) (cfg : GmockSection) (d : FunctionDecl) : String → Type 0 where
  plain :
      {text : String} (guard call : String)
      → d.is_variadic ≡ false
      → IsOutput (write_pointer_guard ast cfg d) guard
      → IsCall ast cfg d call
      → text
        ≡ guard
          <> ("    "
              <> ((if not d.return_type.is_void_type then "return " else "") <> (call <> "}\n")))
      → IsBody ast cfg d text
  variadic :
      {text : String} (guard last call : String)
      → d.is_variadic ≡ true
      → IsOutput (write_pointer_guard ast cfg d) guard
      → IsOutput (write_last_argument d.parameters) last
      → IsCall ast cfg d call
      → text
        ≡ guard
          <> ("    va_list vargs_;\n\n    va_start(vargs_, "
              <> (last
                  <> (");\n    "
                      <> ((if not d.return_type.is_void_type then "auto ccmock_val_ = " else "")
                          <> (call
                              <> ("    va_end(vargs_);\n"
                                  <> ((if not d.return_type.is_void_type
                                        then "\n    return ccmock_val_;\n"
                                        else "")
                                      <> "}\n")))))))
      → IsBody ast cfg d text

At-if_true :
    (b : Bool) (m k : Action Writer) {w : Writer} {text : String}
    → b ≡ true
    → At w m text
    → At w (if b then m else k) text
At-if_true true m k e a = record { at = a.at }
At-if_true false m k e a = absurd (cc)

At-if_false :
    (b : Bool) (m k : Action Writer) {w : Writer} {text : String}
    → b ≡ false
    → At w k text
    → At w (if b then m else k) text
At-if_false true m k e a = absurd (cc)
At-if_false false m k e a = record { at = a.at }

module _ (ast : Ast) (depth : ℕ → ℕ) (nested : IsNested ast depth) (named : IsNamed ast)
    (cfg : GmockSection) (d : FunctionDecl) (able : IsWritable ast d) where
  write_mock_call-IsCall :
      (w : Writer) → (call : String) × At w (write_mock_call ast cfg d) call × IsCall ast cfg d call
  unfolding write_mock_call
  write_mock_call-IsCall w =
      let (name, called) = able.called in
      let (access, e) = (Appends-call_access ast depth nested named cfg d able).runs w in
      let behind_name = append "(" (append name (append access w)) in
      let (arguments, f, all) = write_call_argument-passed d.parameters behind_name in
      (
        call_text d access name arguments,
        At-seq {m = write_mock_call_pointer_access ast cfg d} (record { at = e })
            (At-seq (At-write_mock_name d called) (
              At-seq (At-write "(") (
                At-seq {m = for_each_from 0 d.parameters write_call_argument} (record { at = f })
                  (At-seq (At-Writes (Writes-when d.is_variadic (Writes-write ", vargs_")))
                    (At-write ");\n"))))),
        (access, name, arguments, (w, e), called, all, refl),
      )

  plain-IsBody :
      (w : Writer)
      → d.is_variadic ≡ false
      → (block : String) × At w (write_function_body ast cfg d) ("{\n" <> block)
        × IsBody ast cfg d block
  unfolding write_function_body
  plain-IsBody w e =
      let inside = append "{\n" w in
      let (guard, g) =
        (Appends-write_pointer_guard ast depth nested named cfg d able).runs inside in
      let returned = if not d.return_type.is_void_type then "return " else "" in
      let (call, called, is) =
        write_mock_call-IsCall (append returned (append "    " (append guard inside))) in
      (
        guard <> ("    " <> (returned <> (call <> "}\n"))),
        At-seq (At-write "{\n") (
            At-seq {m = write_pointer_guard ast cfg d} (record { at = g })
              (At-if_true (not d.is_variadic) _ _ (ap not e) (
                At-seq (At-write "    ") (
                  At-seq
                    (At-Writes
                      (Writes-when (not d.return_type.is_void_type) (Writes-write "return ")))
                    (At-seq called (At-write "}\n")))))),
        plain guard call e (inside, g) is refl,
      )

  variadic-IsBody :
      (w : Writer)
      → d.is_variadic ≡ true
      → (block : String) × At w (write_function_body ast cfg d) ("{\n" <> block)
        × IsBody ast cfg d block
  unfolding write_function_body
  variadic-IsBody w e =
      let inside = append "{\n" w in
      let (guard, g) =
        (Appends-write_pointer_guard ast depth nested named cfg d able).runs inside in
      let started = append "    va_list vargs_;\n\n    va_start(vargs_, " (append guard inside) in
      let (last, l) = (Appends-write_last_argument d.parameters (able.parameters e)).runs started in
      let kept = if not d.return_type.is_void_type then "auto ccmock_val_ = " else "" in
      let returned = if not d.return_type.is_void_type then "\n    return ccmock_val_;\n" else "" in
      let (call, called, is) =
        write_mock_call-IsCall (append kept (append ");\n    " (append last started))) in
      (
        guard
            <> ("    va_list vargs_;\n\n    va_start(vargs_, "
                <> (last
                    <> (");\n    "
                        <> (kept <> (call <> ("    va_end(vargs_);\n" <> (returned <> "}\n"))))))),
        At-seq (At-write "{\n") (
            At-seq {m = write_pointer_guard ast cfg d} (record { at = g })
              (At-if_false (not d.is_variadic) _ _ (ap not e) (
                At-seq (At-write "    va_list vargs_;\n\n    va_start(vargs_, ") (
                  At-seq {m = write_last_argument d.parameters} (record { at = l })
                    (At-seq (At-write ");\n    ") (
                      At-seq
                        (At-Writes (
                          Writes-when (not d.return_type.is_void_type)
                            (Writes-write "auto ccmock_val_ = ")))
                        (At-seq called (
                          At-seq (At-write "    va_end(vargs_);\n") (
                            At-seq
                              (At-Writes (
                                Writes-when (not d.return_type.is_void_type)
                                  (Writes-write "\n    return ccmock_val_;\n")))
                              (At-write "}\n")))))))))),
        variadic guard last call e (inside, g) (started, l) is refl,
      )

  pub write_function_body-IsBody :
      (w : Writer)
      → (block : String) × (write_function_body ast cfg d w ≡ ok (append ("{\n" <> block) w))
        × IsBody ast cfg d block
  write_function_body-IsBody w = elim (Bool-cases d.is_variadic) [
    | inl e ↦ let (block, a, is) = variadic-IsBody w e in (block, a.at, is)
    | inr e ↦ let (block, a, is) = plain-IsBody w e in (block, a.at, is)
  ]
