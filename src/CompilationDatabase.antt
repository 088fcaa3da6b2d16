-- ===== src/CompilationDatabase.antt =====
-- CompilationDatabase.hpp and CompilationDatabase.cpp: the adapter that selects one compile
-- command of a file. What clang's own databases hold and how they are found is a parameter.
pub mod Selects
use ccmock.Base.{
  ℕ, zero, suc, String, Bool, true, false, not, Option, none, some, List, [], ◌∷◌, ◌==◌, leb,
  str_eq, if◌then◌else◌, ◌<>◌, length, get_elem?, set, take, Outcome, ok, fault,
}

pub record CompileCommand : Type 0 where
  pub directory : String
  pub filename : String
  pub command_line : List String

-- `clang::tooling::CompilationDatabase`
pub record Database : Type 0 where
  pub commands_of : String → List CompileCommand
  pub all_files : List String
  pub all_commands : List CompileCommand

-- clang's loaders: the database, if one was made, and the error text.
pub record Loaders : Type 0 where
  pub extension : String → String
  pub parent_path : String → String
  pub load_json : String → Option Database × String
  pub load_fixed : String → Option Database × String
  pub auto_detect : String → Option Database × String
  pub load_buffer : String → String → Option Database × String

pub record Adapter : Type 0 where
  pub database : Option Database
  pub index : ℕ

unfoldable pub set_index : ℕ → Adapter → Adapter
set_index n a = record a { index = n }

unfoldable pub is_loaded : Adapter → Bool
is_loaded a = elim a.database [ none ↦ false | some d ↦ true ]

-- `load`: the adapter and the error text
unfoldable pub load : Loaders → String → Adapter → String → Adapter × String
load l path a error =
    if str_eq (l.extension path) ".json"
    then (let (d, e) = l.load_json path in (record a { database = d }, e))
    else if str_eq (l.extension path) ".txt"
    then (let (d, e) = l.load_fixed path in (record a { database = d }, e))
    else (a, error <> "unsupported compilation database extension \"" <> l.extension path <> "\"\n")

unfoldable pub detect : Loaders → String → Adapter → Adapter × String
detect l path a =
    let (d, e) = l.auto_detect path in
    elim d [
      | some database ↦ (record a { database = some database }, e)
      | none ↦
          let (f, e') = l.load_buffer (l.parent_path path) "" in (record a { database = f }, e')
    ]

-- `std::swap(vec[0], vec[index])`; out of range nothing is changed.
abbrev pub swap_first {ℓ} : {A : Type ℓ} → ℕ → List A → List A
swap_first i xs = elim (get_elem? xs 0) [
  | none ↦ xs
  | some first ↦ elim (get_elem? xs i) [ none ↦ xs | some x ↦ set (set xs 0 x) i first ]
]

-- the body of `getCompileCommands`, on the commands of the file
unfoldable pub select_command : ℕ → List CompileCommand → List CompileCommand
select_command index vec =
    if leb (length vec) index
    then []
    else take 1 (if not (index == 0) then swap_first index vec else vec)

-- A fault where no database is loaded.
unfoldable pub get_compile_commands : Adapter → String → Outcome (List CompileCommand)
unfolding select_command
get_compile_commands a path = elim a.database [
  | none ↦ fault
  | some d ↦ ok (select_command a.index (d.commands_of path))
]

unfoldable pub get_all_files : Database → List String
get_all_files d = d.all_files

unfoldable pub get_all_compile_commands : Database → List CompileCommand
get_all_compile_commands d = d.all_commands
