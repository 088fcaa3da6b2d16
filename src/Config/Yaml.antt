-- ===== src/Config/Yaml.antt =====
-- Config.cpp, the `llvm::yaml` traits: a `mapping` names the fields of a section once, for reading
-- and for writing. A document is what llvm's parser makes of the text: its keys with their values;
-- the scalars that llvm itself reads and prints are a parameter.
use ccmock.Base.{
  ℕ, String, Bool, true, not, ◌&&◌, mem_str, Option, none, some, List, [], ◌∷◌, str_eq,
  if◌then◌else◌, Outcome, ok, exit, fault, bind,
}
use ccmock.Config.Types.{
  ColorMode, color_auto, color_never, color_always, Backend, gmock, fff, cmocka, raw, HistoryLen,
  ClangSection, GeneralSection, MockingSection, GmockSection, FffSection, CmockaSection,
  fits_unsigned, fits_int,
}

pub data Value : Type 0 where
  scalar : String → Value
  sequence : List String → Value

-- the keys of one section, in the order of the text
abbrev pub Node : Type 0
Node = List (String × Value)

-- the sections of a file
abbrev pub Document : Type 0
Document = List (String × Node)

unfoldable pub find_key {ℓ} : {A : Type ℓ} → String → List (String × A) → Option A
find_key key [] = none
find_key key ((k, v) ∷ rest) = if str_eq k key then some v else find_key key rest

abbrev pub keys_of {ℓ} : {A : Type ℓ} → List (String × A) → List String
keys_of [] = []
keys_of ((k, v) ∷ rest) = k ∷ keys_of rest

-- llvm's `Input` takes a mapping in which each key is one that is asked for, and stands once.
unfoldable pub is_mapping {ℓ} : {A : Type ℓ} → List String → List (String × A) → Bool
is_mapping keys [] = true
is_mapping keys ((k, v) ∷ rest) =
    (mem_str k keys && not (mem_str k (keys_of rest))) && is_mapping keys rest

-- How values of a type are written and read; `print` is `none` where `enumeration` names no text
-- for the value, at which llvm's `Output` is unreachable.
pub record Codec (T : Type 0) : Type 0 where
  pub print : T → Option String
  pub parse : String → Option T

-- A value that is read is checked for its range, as in llvm's `ScalarTraits<uint32_t>::input` and
-- `ScalarTraits<int32_t>::input`.
abbrev pub checked : {T : Type 0} → (T → Bool) → Codec T → Codec T
checked fits codec = record {
  print = codec.print;
  parse = λ s. elim (codec.parse s) [ none ↦ none | some x ↦ if fits x then some x else none ];
}

-- llvm's own scalars, as numbers of any size, and whether the build has the `assert` of llvm's
-- `yamlize`; the release build has not.
pub record Scalars : Type 0 where
  pub asserts : Bool
  pub bool : Codec Bool
  pub unsigned : Codec ℕ
  pub int : Codec HistoryLen

abbrev pub text : Codec String
text = record { print = λ s. some s; parse = λ s. some s }

unfoldable pub parse_color_mode : String → Option ColorMode
parse_color_mode s =
    if str_eq s "auto"
    then some color_auto
    else if str_eq s "never"
    then some color_never
    else if str_eq s "always"
    then some color_always
    else none

unfoldable pub print_color_mode : ColorMode → Option String
print_color_mode color_auto = some "auto"
print_color_mode color_never = some "never"
print_color_mode color_always = some "always"

unfoldable pub parse_backend : String → Option Backend
parse_backend s =
    if str_eq s "gmock"
    then some gmock
    else if str_eq s "fff"
    then some fff
    else if str_eq s "cmocka"
    then some cmocka
    else none

-- `BACKEND_RAW` has no `enumCase`.
unfoldable pub print_backend : Backend → Option String
print_backend gmock = some "gmock"
print_backend fff = some "fff"
print_backend cmocka = some "cmocka"
print_backend raw = none

abbrev pub color_mode : Codec ColorMode
color_mode = record { print = print_color_mode; parse = parse_color_mode }

abbrev pub backend : Codec Backend
backend = record { print = print_backend; parse = parse_backend }

-- One `mapOptional` line: a key that a node lacks leaves the field as it is, and a value of the
-- wrong shape is an error; an empty sequence is not written.
pub record Field (S : Type 0) : Type 0 where
  pub key : String
  pub read : Value → S → Outcome S
  pub write : S → Outcome (Option Value)

abbrev optional {ℓ} : {A : Type ℓ} → Option A → (A → Outcome A) → Outcome A
optional none k = exit
optional (some a) k = k a

module _ {S : Type 0} where
  abbrev pub scalar_field : {T : Type 0} → String → Codec T → (S → T) → (T → S → S) → Field S
  scalar_field key codec get put = record {
    key = key;
    read = λ v s. elim v [
      | sequence _ ↦ exit
      | scalar t ↦ elim (codec.parse t) [ none ↦ exit | some x ↦ ok (put x s) ]
    ];
    write = λ s. elim (codec.print (get s)) [ none ↦ fault | some t ↦ ok (some (scalar t)) ];
  }

  abbrev pub sequence_field : String → (S → List String) → (List String → S → S) → Field S
  sequence_field key get put = record {
    key = key;
    read = λ v s. elim v [ sequence ts ↦ ok (put ts s) | scalar _ ↦ exit ];
    write = λ s. ok (elim (get s) [ [] ↦ none | t ∷ ts ↦ some (sequence (t ∷ ts)) ]);
  }

  abbrev pub field_keys : List (Field S) → List String
  field_keys [] = []
  field_keys (f ∷ fs) = f.key ∷ field_keys fs

  -- `Input`: the lines of the mapping in turn
  unfoldable pub read_fields : List (Field S) → Node → S → Outcome S
  unfolding find_key
  read_fields [] node s = ok s
  read_fields (f ∷ fs) node s =
      bind (elim (find_key f.key node) [ none ↦ ok s | some v ↦ f.read v s ]) (read_fields fs node)

  -- `Output`
  unfoldable pub write_fields : List (Field S) → S → Outcome Node
  write_fields [] s = ok []
  write_fields (f ∷ fs) s = bind (f.write s) (λ o.
      bind (write_fields fs s) (λ node. ok (elim o [ none ↦ node | some v ↦ (f.key, v) ∷ node ])))

module _ (scalars : Scalars) where
  abbrev pub clang_fields : List (Field ClangSection)
  clang_fields =
      scalar_field "CompileCommands" text (λ s. s.compile_commands)
        (λ x s. record s { compile_commands = x })
      ∷ sequence_field "ExtraArguments" (λ s. s.extra_arguments)
          (λ x s. record s { extra_arguments = x })
      ∷ sequence_field "RemoveArguments" (λ s. s.remove_arguments)
          (λ x s. record s { remove_arguments = x })
      ∷ scalar_field "ResourceDirectory" text (λ s. s.resource_directory)
          (λ x s. record s { resource_directory = x })
      ∷ scalar_field "CompileCommandIndex" (checked fits_unsigned scalars.unsigned)
          (λ s. s.compile_command_index) (λ x s. record s { compile_command_index = x })
      ∷ []

  abbrev pub general_fields : List (Field GeneralSection)
  general_fields =
      scalar_field "BaseDirectory" text (λ s. s.base_directory)
        (λ x s. record s { base_directory = x })
      ∷ scalar_field "Input" text (λ s. s.input) (λ x s. record s { input = x })
      ∷ scalar_field "Output" text (λ s. s.output) (λ x s. record s { output = x })
      ∷ scalar_field "ColorMode" color_mode (λ s. s.color_mode) (λ x s. record s { color_mode = x })
      ∷ scalar_field "Quiet" scalars.bool (λ s. s.quiet) (λ x s. record s { quiet = x })
      ∷ scalar_field "Verbose" scalars.bool (λ s. s.verbose) (λ x s. record s { verbose = x })
      ∷ scalar_field "WriteDate" scalars.bool (λ s. s.write_date)
          (λ x s. record s { write_date = x })
      ∷ []

  abbrev pub mocking_fields : List (Field MockingSection)
  mocking_fields =
      sequence_field "Blacklist" (λ s. s.blacklist) (λ x s. record s { blacklist = x })
      ∷ scalar_field "Backend" backend (λ s. s.backend) (λ x s. record s { backend = x })
      ∷ scalar_field "MockBuiltins" scalars.bool (λ s. s.mock_builtins)
          (λ x s. record s { mock_builtins = x })
      ∷ scalar_field "MockCStdLib" scalars.bool (λ s. s.mock_c_std_lib)
          (λ x s. record s { mock_c_std_lib = x })
      ∷ scalar_field "MockC++StdLib" scalars.bool (λ s. s.mock_cxx_std_lib)
          (λ x s. record s { mock_cxx_std_lib = x })
      ∷ scalar_field "MockVariadicFunctions" scalars.bool (λ s. s.mock_variadic_functions)
          (λ x s. record s { mock_variadic_functions = x })
      ∷ []

  abbrev pub gmock_fields : List (Field GmockSection)
  gmock_fields =
      scalar_field "MockType" text (λ s. s.mock_type) (λ x s. record s { mock_type = x })
      ∷ scalar_field "ClassName" text (λ s. s.class_name) (λ x s. record s { class_name = x })
      ∷ scalar_field "GlobalNamespaceName" text (λ s. s.global_namespace_name)
          (λ x s. record s { global_namespace_name = x })
      ∷ scalar_field "TestFixtureName" text (λ s. s.test_fixture_name)
          (λ x s. record s { test_fixture_name = x })
      ∷ scalar_field "WriteMain" scalars.bool (λ s. s.write_main)
          (λ x s. record s { write_main = x })
      ∷ []

  abbrev pub fff_fields : List (Field FffSection)
  fff_fields =
      scalar_field "CallingConvention" text (λ s. s.calling_convention)
        (λ x s. record s { calling_convention = x })
      ∷ scalar_field "GCCFunctionAttributes" text (λ s. s.gcc_function_attributes)
          (λ x s. record s { gcc_function_attributes = x })
      ∷ scalar_field "ArgHistoryLen" (checked fits_int scalars.int) (λ s. s.arg_history_len)
          (λ x s. record s { arg_history_len = x })
      ∷ scalar_field "CallHistoryLen" (checked fits_int scalars.int) (λ s. s.call_history_len)
          (λ x s. record s { call_history_len = x })
      ∷ []

  abbrev pub cmocka_fields : List (Field CmockaSection)
  cmocka_fields =
      scalar_field "OutputParameters" scalars.bool (λ s. s.output_parameters)
        (λ x s. record s { output_parameters = x })
      ∷ scalar_field "StrictMocks" scalars.bool (λ s. s.strict_mocks)
          (λ x s. record s { strict_mocks = x })
      ∷ []
