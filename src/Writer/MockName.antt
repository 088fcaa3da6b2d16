-- ===== src/Writer/MockName.antt =====
-- `writeMockName` of output/OutputWriter.cpp: the name of the mock method of a function.
use ccmock.Base.{String, Option, none, some}
use ccmock.Ast.{
  Operator, op_none, op_new, op_delete, op_array_new, op_array_delete, op_plus, op_minus, op_star,
  op_slash, op_percent, op_caret, op_amp, op_pipe, op_tilde, op_exclaim, op_equal, op_less,
  op_greater, op_plus_equal, op_minus_equal, op_star_equal, op_slash_equal, op_percent_equal,
  op_caret_equal, op_amp_equal, op_pipe_equal, op_less_less, op_greater_greater, op_less_less_equal,
  op_greater_greater_equal, op_equal_equal, op_exclaim_equal, op_less_equal, op_greater_equal,
  op_spaceship, op_amp_amp, op_pipe_pipe, op_plus_plus, op_minus_minus, op_comma, op_arrow_star,
  op_arrow, op_call, op_subscript, op_conditional, op_coawait, FunctionDecl, DeclKind,
  cxx_constructor, cxx_destructor, cxx_conversion,
}

-- The switch over the operators; `none` is `llvm_unreachable`.
unfoldable pub operator_name : String → Operator → Option String
operator_name name op_none = some name
operator_name name op_new = some "op_new"
operator_name name op_delete = some "op_delete"
operator_name name op_array_new = some "op_array_new"
operator_name name op_array_delete = some "op_array_delete"
operator_name name op_plus = some "op_plus"
operator_name name op_minus = some "op_minus"
operator_name name op_star = some "op_star"
operator_name name op_slash = some "op_slash"
operator_name name op_percent = some "op_percent"
operator_name name op_caret = some "op_caret"
operator_name name op_amp = some "op_amp"
operator_name name op_pipe = some "op_pipe"
operator_name name op_tilde = some "op_tilde"
operator_name name op_exclaim = some "op_exclaim"
operator_name name op_equal = some "op_equal"
operator_name name op_less = some "op_less"
operator_name name op_greater = some "op_greater"
operator_name name op_plus_equal = some "op_plus_equal"
operator_name name op_minus_equal = some "op_minus_equal"
operator_name name op_star_equal = some "op_star_equal"
operator_name name op_slash_equal = some "op_slash_equal"
operator_name name op_percent_equal = some "op_percent_equal"
operator_name name op_caret_equal = some "op_caret_equal"
operator_name name op_amp_equal = some "op_amp_equal"
operator_name name op_pipe_equal = some "op_pipe_equal"
operator_name name op_less_less = some "op_less_less"
operator_name name op_greater_greater = some "op_greater_greater"
operator_name name op_less_less_equal = some "op_less_less_equal"
operator_name name op_greater_greater_equal = some "op_greater_greater_equal"
operator_name name op_equal_equal = some "op_equal_equal"
operator_name name op_exclaim_equal = some "op_exclaim_equal"
operator_name name op_less_equal = some "op_less_equal"
operator_name name op_greater_equal = some "op_greater_equal"
operator_name name op_spaceship = some "op_spaceship"
operator_name name op_amp_amp = some "op_amp_amp"
operator_name name op_pipe_pipe = some "op_pipe_pipe"
operator_name name op_plus_plus = some "op_plus_plus"
operator_name name op_minus_minus = some "op_minus_minus"
operator_name name op_comma = some "op_comma"
operator_name name op_arrow_star = some "op_arrow_star"
operator_name name op_arrow = some "op_arrow"
operator_name name op_call = some "op_call"
operator_name name op_subscript = some "op_subscript"
operator_name name op_conditional = none
operator_name name op_coawait = none

abbrev special_name : DeclKind → Option String → Option String
special_name cxx_constructor other = some "constructor"
special_name cxx_destructor other = some "destructor"
special_name cxx_conversion other = some ""
special_name _ other = other

-- The text that `writeMockName` writes.
unfoldable pub mock_name : FunctionDecl → Option String
unfolding operator_name
mock_name d = special_name d.kind (operator_name d.name d.overloaded_operator)
