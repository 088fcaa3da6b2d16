-- ===== src/Witnesses/Block.antt =====
-- `extern "C" { void dispatch(int); }`: the contexts are 0, the translation unit, 1, the block, and
-- 2, the function.
use ccmock.Base.{◌==◌, none, some, ◌≡◌, refl, arith, if◌then◌else◌, fault}
use ccmock.Ast.{Ast, translation_unit, function, other, tag_other}
use ccmock.Config.{default_gmock}
use ccmock.Sample.{dispatch_decl}
use ccmock.Writer.{new_writer}
use ccmock.Gmock.{gmock_policy, write_mock_call}
use ccmock.Gmock.Nameless.{write_mock_call-fault}

abbrev block : Ast
block = record {
  root = 0;
  nesting = 2;
  parent = λ c. if c == 1 then some 0 else if c == 2 then some 1 else none;
  primary = λ c. c;
  kind = λ c. if c == 1 then other else if c == 2 then function else translation_unit;
  name = λ c. if c == 2 then some "dispatch" else none;
  tag_kind = λ c. tag_other;
  function = λ c. if c == 2 then some dispatch_decl else none;
}

write_mock_call-fault_example :
    write_mock_call block default_gmock dispatch_decl (new_writer gmock_policy) ≡ fault
write_mock_call-fault_example =
    write_mock_call-fault block default_gmock dispatch_decl 1 0 (new_writer gmock_policy)
      (omega arith) refl refl refl refl refl
