-- ===== src/Fff/Texts.antt =====
-- output/FFF.cpp: the exact text of the list of fakes and of the fakes.
use ccmock.Base.{String, not, Option, none, some, List, refl, ◌<>◌, if◌then◌else◌, is_empty}
use ccmock.Ast.{Policy, FunctionDecl, ParmVarDecl}
use ccmock.Config.{FffSection}
use ccmock.Writer.{write}
use ccmock.Writer.Texts.{
  Writes, Writes-write, Writes-seq, Writes-if, Writes-when, Writes-write_type, Writes-for_each,
  concat,
}
use ccmock.Fff.{
  TypedefMap, find_typedef, vararg_suffix, write_fake, write_macros, write_mock_parameter,
  write_mock,
}

-- the line of a function in `FFF_FAKE_LIST`
abbrev pub entry_text : FunctionDecl → String
entry_text d = "    FAKE(" <> (d.name <> ") \\\n")

-- the type of a parameter: its typedef, or what clang prints for it without `const`
abbrev pub type_text : Policy → TypedefMap → ParmVarDecl → String
type_text policy typedefs p = elim (find_typedef typedefs p.type.type_ptr) [
  | some name ↦ name
  | none ↦ p.type.printed_unconst policy ""
]

abbrev pub mock_text : Policy → FffSection → TypedefMap → FunctionDecl → String
mock_text policy cfg typedefs d =
    (if d.return_type.is_void_type
      then "FAKE_VOID_FUNC" <> (vararg_suffix d <> "(")
      else "FAKE_VALUE_FUNC"
        <> (vararg_suffix d <> ("(" <> (d.return_type.printed policy "" <> ", "))))
    <> ((if not (is_empty cfg.calling_convention) then cfg.calling_convention <> ", " else "")
        <> (d.name
            <> (concat d.parameters (λ p. ", " <> type_text policy typedefs p)
                <> ((if d.is_variadic then ", ..." else "") <> ");\n"))))

Writes-write_fake : (d : FunctionDecl) → Writes (write_fake d) (λ policy. entry_text d)
unfolding write_fake
Writes-write_fake d =
    Writes-seq (Writes-write _) (Writes-seq (Writes-write d.name) (Writes-write _))

Writes-write_mock_parameter :
    (typedefs : TypedefMap) (p : ParmVarDecl)
    → Writes (write_mock_parameter typedefs p) (λ policy. ", " <> type_text policy typedefs p)
unfolding write_mock_parameter
Writes-write_mock_parameter typedefs p =
    Writes-seq (Writes-write ", ") (go (find_typedef typedefs p.type.type_ptr))
  where
    go :
        (o : Option String)
        → Writes
            (elim o [
              | some name ↦ write name
              | none ↦ λ w. write (p.type.printed_unconst w.policy "") w
            ])
            (λ policy. elim o [ some name ↦ name | none ↦ p.type.printed_unconst policy "" ])
    go none = record { writes = λ w. refl }
    go (some name) = Writes-write name

pub Writes-write_mock :
    (cfg : FffSection) (typedefs : TypedefMap) (d : FunctionDecl)
    → Writes (write_mock cfg typedefs d) (λ policy. mock_text policy cfg typedefs d)
unfolding write_mock
Writes-write_mock cfg typedefs d =
    Writes-seq
      (Writes-if d.return_type.is_void_type
        (Writes-seq (Writes-write _) (Writes-seq (Writes-write _) (Writes-write _)))
        (Writes-seq (Writes-write _) (
          Writes-seq (Writes-write _) (
            Writes-seq (Writes-write _)
              (Writes-seq (Writes-write_type d.return_type "") (Writes-write _))))))
      (Writes-seq
        (Writes-when (not (is_empty cfg.calling_convention))
          (Writes-seq (Writes-write cfg.calling_convention) (Writes-write _)))
        (Writes-seq (Writes-write d.name) (
          Writes-seq (Writes-for_each d.parameters (Writes-write_mock_parameter typedefs))
            (Writes-seq (Writes-when d.is_variadic (Writes-write _)) (Writes-write _)))))

abbrev pub macros_text : List FunctionDecl → String
macros_text functions =
    "DEFINE_FFF_GLOBALS\n\n#define FFF_FAKE_LIST(FAKE) \\\n"
    <> (concat functions entry_text <> "\n\n")

pub Writes-write_macros :
    (functions : List FunctionDecl)
    → Writes (write_macros functions) (λ policy. macros_text functions)
unfolding write_macros
Writes-write_macros functions =
    Writes-seq (Writes-write _)
      (Writes-seq (Writes-for_each functions Writes-write_fake) (Writes-write _))

abbrev pub mocks_text : Policy → FffSection → TypedefMap → List FunctionDecl → String
mocks_text policy cfg typedefs functions =
    "#ifdef __cplusplus\nextern \"C\" {\n#endif\n\n"
    <> (concat functions (mock_text policy cfg typedefs)
        <> "\n#ifdef __cplusplus\n} /* extern \"C\" */\n#endif\n\n")
