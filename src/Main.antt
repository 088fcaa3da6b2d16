-- ===== src/Main.antt =====
-- main.cpp: the command line over the configuration files, the argument adjusters and the order of
-- the program's steps. Option parsing, the file system and clang's tool are parameters.
mod Adjusters
pub mod Sources
pub mod Precedence
pub mod Valid
pub mod Ranges
pub mod Adjusts
pub mod Dump
pub mod Starts
unfoldable pub use Adjusters.*
use ccmock.Base.{
  or_given, ℕ, ◌%◌, ◌^◌, ◌≤◌, String, Bool, true, false, not, ◌&&◌, Option, none, some, List, [],
  ◌∷◌, ◌++◌, if◌then◌else◌, leb, is_empty, Outcome, ok, exit, fault, bind, Action, ◌>>◌, for_each,
  when, skip,
}
use ccmock.Config.{
  Config, Backend, ColorMode, color_auto, color_never, color_always, default_config,
}
use ccmock.Config.Yaml.{Document, Scalars}
use ccmock.Config.Files.{FileSystem, read, write_document}
use ccmock.Config.Files
use ccmock.CompilationDatabase.{Adapter, Loaders, load, detect, is_loaded, set_index}

-- The parsed options, of which `force` and `strict` are read by nothing. An option of which the number of occurrences matters is an `Option`.
pub record Options : Type 0 where
  pub argument_count : ℕ
  pub config_files : List String
  pub extra_arguments : List String
  pub remove_arguments : List String
  pub resource_directory : String
  pub base_directory : String
  pub backend : Option Backend
  pub compile_command_index : Option ℕ
  pub blacklist : List String
  pub compile_commands : Option String
  pub verbose : Option Bool
  pub quiet : Option Bool
  pub input : String
  pub output : String
  pub dump_config : Bool
  pub force : Bool
  pub strict : Bool

-- `if (!text.empty()) field = text`
abbrev pub or_text : String → String → String
or_text s old = if not (is_empty s) then s else old

abbrev pub or_list {ℓ} : {A : Type ℓ} → List A → List A → List A
or_list [] old = old
or_list (x ∷ xs) old = x ∷ xs

-- `CompileCommandIndex` is a `size_t`, and the field an `unsigned int`.
abbrev pub unsigned : ℕ → ℕ
unsigned n = n % 2 ^ 32

abbrev pub map_index : Option ℕ → Option ℕ
map_index none = none
map_index (some n) = some (unsigned n)

unfoldable pub apply_options : Options → Config → Config
apply_options o c = record {
  clang = record (c.clang) {
    extra_arguments = or_list o.extra_arguments c.clang.extra_arguments;
    remove_arguments = or_list o.remove_arguments c.clang.remove_arguments;
    resource_directory = or_text o.resource_directory c.clang.resource_directory;
    compile_command_index =
        or_given (map_index o.compile_command_index) c.clang.compile_command_index;
    compile_commands = or_given o.compile_commands c.clang.compile_commands;
  };
  general = record (c.general) {
    base_directory = or_text o.base_directory c.general.base_directory;
    verbose = or_given o.verbose c.general.verbose;
    quiet = or_given o.quiet c.general.quiet;
    input = or_text o.input c.general.input;
    output = or_text o.output c.general.output;
  };
  mocking = record (c.mocking) {
    backend = or_given o.backend c.mocking.backend;
    blacklist = or_list o.blacklist c.mocking.blacklist;
  };
  gmock = c.gmock;
  fff = c.fff;
  cmocka = c.cmocka;
}

-- What the program asks of its surroundings. `environment` is `getenv("CCMOCK_CONFIG")`, the empty
-- text where it is not set.
pub record Surroundings : Type 0 where
  pub files : FileSystem
  pub scalars : Scalars
  pub loaders : Loaders
  pub environment : String
  pub current_path : String
  pub is_relative : String → Bool
  pub absolute : String → String

module _ (host : Surroundings) where
  unfoldable pub read_config_files : List String → Action Config
  unfolding read
  read_config_files paths = for_each paths (read host.files host.scalars)

  -- the configuration files, then the one that the environment names; behind them the options
  unfoldable pub read_all : Options → Outcome Config
  unfolding read_config_files read
  read_all o =
      (do
        read_config_files o.config_files
        when (not (is_empty host.environment)) (read host.files host.scalars host.environment))
        default_config

  unfoldable pub merge_config : Options → Outcome Config
  unfolding read_all apply_options
  merge_config o = bind (read_all o) (λ c. ok (apply_options o c))

  -- the adjustments behind the dump
  unfoldable pub complete_paths : Config → Config
  complete_paths c = record c {
    general = record (c.general) {
      base_directory =
          if is_empty c.general.base_directory then host.current_path else c.general.base_directory;
      output =
          if not (is_empty c.general.output) && host.is_relative c.general.output
          then host.absolute c.general.output
          else c.general.output;
    };
  }

  unfoldable pub load_database : Config → Adapter × String
  unfolding load detect set_index
  load_database c =
      let a = set_index c.clang.compile_command_index (record { database = none; index = 0 }) in
      if not (is_empty c.clang.compile_commands)
      then load host.loaders c.clang.compile_commands a ""
      else detect host.loaders c.general.input a

-- `enable_colors` on standard error, if it is called.
unfoldable pub color_setting : ColorMode → Option Bool
color_setting color_auto = none
color_setting color_never = some false
color_setting color_always = some true

-- The call of clang's tool: `config` is the configuration that the factory shares.
pub record ToolRun : Type 0 where
  pub database : Adapter
  pub config : Config
  pub colors : Option Bool
  pub adjusters : List Adjuster

pub data Exit : Type 0 where
  help : Exit
  dumped : String → Document → Exit
  run_tool : ToolRun → Exit

-- `if (!arguments.empty())` append an adjuster.
abbrev pub optional_adjuster : (List String → Adjuster) → List String → List Adjuster
optional_adjuster make [] = []
optional_adjuster make (x ∷ xs) = make (x ∷ xs) ∷ []

abbrev pub adjusters_of : Config → List Adjuster
adjusters_of c =
    optional_adjuster extra c.clang.extra_arguments
    ++ optional_adjuster remove c.clang.remove_arguments

-- The configuration, behind `std::move` of both lists into their adjusters.
abbrev pub move_arguments : Config → Config
move_arguments c = record c {
  clang = record (c.clang) { extra_arguments = []; remove_arguments = [] };
}

module _ (host : Surroundings) where
  -- the part of `ccmock_main` behind the dump
  unfoldable pub start_tool : Config → Outcome Exit
  unfolding load_database is_loaded complete_paths color_setting
  start_tool c =
      let d = complete_paths host c in
      let (database, message) = load_database host d in
      if not (is_loaded database)
      then exit
      else if is_empty d.general.input
      then exit
      else ok (
          run_tool (record {
            database = database;
            config = move_arguments d;
            colors = color_setting d.general.color_mode;
            adjusters = adjusters_of d;
          }))

  -- `if (DumpConfig)`
  unfoldable pub dump : Config → Outcome Exit
  dump c =
      if not (is_empty c.general.output)
      then bind (Files.write host.files host.scalars c.general.output c)
          (λ document. ok (dumped c.general.output document))
      else bind (write_document host.files host.scalars c) (λ document. ok (dumped "" document))

  unfoldable pub after_merge : Options → Config → Outcome Exit
  after_merge o c = if o.dump_config then dump c else start_tool c

  -- `ccmock_main`, behind the parsing of the command line
  unfoldable pub ccmock_main : Options → Outcome Exit
  ccmock_main o =
      if leb o.argument_count 1 then ok help else bind (merge_config host o) (after_merge o)
