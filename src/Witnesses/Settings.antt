-- ===== src/Witnesses/Settings.antt =====
-- Config.cpp, main.cpp, CompilationDatabase.cpp and MockAction.cpp on concrete settings.
use ccmock.Base.{
  String, true, false, not, ◌||◌, none, some, List, [], ◌∷◌, ◌++◌, ◌≡◌, ◌≢◌, ◌⊎◌, ◌↔◌, refl, arith,
  if◌then◌else◌, ◌<>◌, is_empty, back?, decimal, leb, length, keep, get_elem?, str_eq, mem_str, ok,
  exit, fault,
}
use ccmock.Config.Validate.{not_directory, validate_clang}
use ccmock.Config.{fits_unsigned, fits_int, Config, default_config, raw}
use ccmock.Config.Yaml.{Document, scalar, sequence, print_color_mode, print_backend}
use ccmock.Config.Files.{FileSystem, read_document, write_document}
use ccmock.Config.Writes.{write_document-ok_iff}
use ccmock.Config.RoundTrip.{IsInRange, is_valid, read_document-write_document}
use ccmock.CompilationDatabase.{Adapter, Database, get_compile_commands}
use ccmock.CompilationDatabase.Selects.{singleton?, get_compile_commands-get_elem?}
use ccmock.Main.{
  Options, merge_config, after_merge, start_tool, ccmock_main, run_tool, ToolRun, extra,
  adjusters_of, complete_paths, remove_arguments, distinct, adjust_all,
}
use ccmock.Main.Adjusts.{remove_arguments-keep, adjust_all-adjusters_of}
use ccmock.Main.Precedence.{FollowsPrecedence, merge_config-FollowsPrecedence}
use ccmock.Main.Valid.{IsValidGmock, IsValidClang, merge_config-IsValid}
use ccmock.Main.Dump.{dump_config-raw}
use ccmock.Main.Starts.{Selects, detected, run_on, ccmock_main-run_tool}
use ccmock.MockAction.{Directories, HeaderSearch, prepare_to_execute_action}
use ccmock.MockAction.Resource.{IsUsable, prepare_to_execute_action_lem}
use ccmock.Witnesses.Inputs.{scalars, scalars-AreFaithful, files, database, host, options}

abbrev merged : Config
merged = record default_config {
  clang = record (default_config.clang) { extra_arguments = "-DX" ∷ [] };
  general = record (default_config.general) { base_directory = "/second"; input = "a.cpp" };
}

merge_ends : merge_config host options ≡ ok merged
unfolding merge_config
merge_ends = refl

merge_config-FollowsPrecedence_example : FollowsPrecedence host options merged
merge_config-FollowsPrecedence_example = merge_config-FollowsPrecedence host options merge_ends

merge_config-IsValid_example :
    IsValidGmock merged.gmock
    × (IsValidClang host.files.is_directory merged.clang
        ⊎ ((is_empty options.resource_directory ≡ false)
            × (merged.clang.resource_directory ≡ options.resource_directory)))
merge_config-IsValid_example = merge_config-IsValid host options merge_ends

abbrev tool_run : ToolRun
tool_run = record {
  database = record { database = some database; index = 0 };
  config = record merged { clang = default_config.clang };
  colors = none;
  adjusters = extra ("-DX" ∷ []) ∷ [];
}

main_ends : ccmock_main host options ≡ ok (run_tool tool_run)
unfolding ccmock_main merge_config after_merge start_tool
main_ends = refl

ccmock_main-run_tool_example : (ccmock_main host options ≡ ok (run_tool tool_run)) ↔ (
    (leb options.argument_count 1 ≡ false)
    × (options.dump_config ≡ false)
    × ((c : Config) × (merge_config host options ≡ ok c)
        × (is_empty (complete_paths host c).general.input ≡ false)
        × ((d : Database) × Selects host.loaders (complete_paths host c) d
            × (tool_run ≡ run_on (complete_paths host c) d))))
ccmock_main-run_tool_example = ccmock_main-run_tool host options tool_run

main-Selects : Selects host.loaders (complete_paths host merged) database
unfolding complete_paths
main-Selects = detected refl refl

abbrev dump_raw : Options
dump_raw = record options { backend = some raw; dump_config = true }

dump_config-raw_example : ccmock_main host dump_raw ≢ ok (run_tool tool_run)
dump_config-raw_example = dump_config-raw host dump_raw (omega arith) refl refl (run_tool tool_run)

abbrev written : Document
written =
    (
      "Clang",
      ("CompileCommands", scalar "")
          ∷ ("ExtraArguments", sequence ("-DX" ∷ []))
          ∷ ("ResourceDirectory", scalar "")
          ∷ ("CompileCommandIndex", scalar "0")
          ∷ [],
    )
    ∷ (
      "General",
      ("BaseDirectory", scalar "/second")
          ∷ ("Input", scalar "a.cpp")
          ∷ ("Output", scalar "")
          ∷ ("ColorMode", scalar "auto")
          ∷ ("Quiet", scalar "false")
          ∷ ("Verbose", scalar "false")
          ∷ ("WriteDate", scalar "true")
          ∷ [],
    )
    ∷ (
      "Mocking",
      ("Backend", scalar "gmock")
          ∷ ("MockBuiltins", scalar "false")
          ∷ ("MockCStdLib", scalar "false")
          ∷ ("MockC++StdLib", scalar "false")
          ∷ ("MockVariadicFunctions", scalar "true")
          ∷ [],
    )
    ∷ (
      "GMock",
      ("MockType", scalar "StrictMock")
          ∷ ("ClassName", scalar "ccmock_")
          ∷ ("GlobalNamespaceName", scalar "_")
          ∷ ("TestFixtureName", scalar "CCMockFixture")
          ∷ ("WriteMain", scalar "true")
          ∷ [],
    )
    ∷ (
      "FFF",
      ("CallingConvention", scalar "")
          ∷ ("GCCFunctionAttributes", scalar "")
          ∷ ("ArgHistoryLen", scalar "-1")
          ∷ ("CallHistoryLen", scalar "-1")
          ∷ [],
    )
    ∷ ("CMocka", ("OutputParameters", scalar "true") ∷ ("StrictMocks", scalar "true") ∷ [])
    ∷ []

merged-written : write_document files scalars merged ≡ ok written
unfolding write_document print_color_mode print_backend decimal
merged-written = refl

merged-IsInRange : IsInRange merged
unfolding fits_unsigned fits_int
merged-IsInRange = record { index = refl; arg_history = refl; call_history = refl }

read_document-write_document_example :
    (read_document files scalars written default_config
      ≡ (if is_valid files merged then ok merged else exit))
    × ((scalars.asserts ≡ false) ⊎ (is_valid files merged ≡ true))
read_document-write_document_example =
    read_document-write_document scalars scalars-AreFaithful files merged merged-IsInRange
      merged-written

write_document-ok_iff_example :
    ((document : Document) × (write_document files scalars merged ≡ ok document)) ↔ (
      (merged.mocking.backend ≢ raw) × ((scalars.asserts ≡ false) ⊎ (is_valid files merged ≡ true)))
write_document-ok_iff_example =
    write_document-ok_iff scalars scalars-AreFaithful files merged merged-IsInRange

-- Over a resource directory that is none, as the option may name one, the two part.
abbrev misled : Config
misled = record merged { clang = record (merged.clang) { resource_directory = "/none" } }

abbrev no_directories : FileSystem
no_directories = record files { is_directory = λ path. not_directory }

misled-invalid : is_valid no_directories misled ≡ false
unfolding validate_clang
misled-invalid = refl

abbrev arguments : List String
arguments = "cc" ∷ "-Wall" ∷ "-c" ∷ []

remove_arguments-keep_example : remove_arguments ("-Wall" ∷ []) arguments ≡ (
    if leb (length (distinct ("-Wall" ∷ []))) (length arguments)
    then ok (keep (λ arg. not (mem_str arg ("-Wall" ∷ []))) arguments)
    else fault)
remove_arguments-keep_example =
    remove_arguments-keep ("-Wall" ∷ []) arguments (omega arith) (omega arith)

adjust_all-adjusters_of_example : adjust_all (adjusters_of merged) arguments ≡ (
    if leb (length (distinct [])) (length (arguments ++ "-DX" ∷ []))
    then ok (keep (λ arg. not (mem_str arg [])) (arguments ++ "-DX" ∷ []))
    else fault)
adjust_all-adjusters_of_example =
    adjust_all-adjusters_of merged arguments (omega arith) (omega arith)

abbrev adapter : Adapter
adapter = record { database = some database; index = 1 }

get_compile_commands-get_elem?_example :
    get_compile_commands adapter "a.cpp"
    ≡ ok (singleton? (get_elem? (database.commands_of "a.cpp") adapter.index))
get_compile_commands-get_elem?_example =
    get_compile_commands-get_elem? adapter database "a.cpp" refl

abbrev directories : Directories
directories = record {
  is_directory =
      λ path. ok (str_eq path "/usr/lib/clang" || str_eq path "/usr/lib/clang/14/include");
  entries = λ path. ok ("/usr/lib/clang/current" ∷ "/usr/lib/clang/14" ∷ []);
}

abbrev search_paths : HeaderSearch
search_paths = record { system_paths = "/usr/include" ∷ []; resource_dir = "" }

abbrev prepared : HeaderSearch
prepared = record {
  system_paths = "/usr/include" ∷ "/usr/lib/clang/14/include" ∷ [];
  resource_dir = "/usr/lib/clang/14";
}

action_prepared : prepare_to_execute_action directories merged search_paths ≡ ok (some prepared)
unfolding prepare_to_execute_action back?
action_prepared = refl

prepare_to_execute_action_lem_example :
    (prepared.system_paths
      ≡ search_paths.system_paths ++ (prepared.resource_dir <> "/include") ∷ [])
    × (is_empty merged.clang.resource_directory ≡ false
        → prepared.resource_dir ≡ merged.clang.resource_directory)
    × (is_empty merged.clang.resource_directory ≡ true → IsUsable directories prepared.resource_dir)
prepare_to_execute_action_lem_example =
    prepare_to_execute_action_lem directories merged search_paths action_prepared
