-- ===== src/Witnesses/Inputs.antt =====
-- Concrete files, loaders and options.
use Prim.Native.Char.{code}
use ccmock.Base.{
  ℕ, ◌+◌, ◌-◌, ◌==◌, ◌&&◌, decimal, value_behind, value_behind-decimal, are_digits,
  are_digits-decimal, String, Bool, true, false, Option, none, some, [], ◌∷◌, ◌≡◌, ◌∙◌, arith, refl,
  ap, if◌then◌else◌, str_eq,
}
use ccmock.Config.{HistoryLen, plus, minus, fits_unsigned, fits_int}
use ccmock.Config.Yaml.{Document, scalar, Scalars}
use ccmock.Config.Validate.{directory}
use ccmock.Config.Files.{FileSystem}
use ccmock.Config.RoundTrip.{AreFaithful}
use ccmock.CompilationDatabase.{CompileCommand, Database, Loaders}
use ccmock.Main.{Options, Surroundings}

-- Codecs that read back what they print.
abbrev pub print_bool : Bool → Option String
print_bool true = some "true"
print_bool false = some "false"

abbrev pub parse_bool : String → Option Bool
parse_bool s = if str_eq s "true" then some true else if str_eq s "false" then some false else none

abbrev pub parse_number : String → Option ℕ
parse_number s = if are_digits s then some (value_behind 0 s) else none

abbrev pub print_len : HistoryLen → Option String
print_len (plus n) = some (decimal n)
print_len (minus n) = some (String.◌∷◌ "-" (decimal (n + 1)))

abbrev pub parse_minus : String → Option HistoryLen
parse_minus String.[] = none
parse_minus (String.◌∷◌ c s) =
    if code c == b'-' && are_digits s then some (minus (value_behind 0 s - 1)) else none

abbrev pub parse_len : String → Option HistoryLen
parse_len s = if are_digits s then some (plus (value_behind 0 s)) else parse_minus s

abbrev pub scalars : Scalars
scalars = record {
  asserts = false;
  bool = record { print = print_bool; parse = parse_bool };
  unsigned = record { print = λ n. some (decimal n); parse = parse_number };
  int = record { print = print_len; parse = parse_len };
}

pub scalars-AreFaithful : AreFaithful scalars
scalars-AreFaithful = record { bool = bool; unsigned = unsigned; int = int }
  where
    bool :
        (x : Bool) → true ≡ true → (t : String) × (print_bool x ≡ some t) × (parse_bool t ≡ some x)
    bool true fits = ("true", refl, refl)
    bool false fits = ("false", refl, refl)

    unsigned :
        (n : ℕ)
        → fits_unsigned n ≡ true
        → (t : String) × (some (decimal n) ≡ some t) × (parse_number t ≡ some n)
    unsigned n fits =
        (decimal n, refl, rw (are_digits-decimal n) (ap some (value_behind-decimal n)))

    int :
        (x : HistoryLen)
        → fits_int x ≡ true
        → (t : String) × (print_len x ≡ some t) × (parse_len t ≡ some x)
    int (plus n) fits = (
      decimal n,
      refl,
      rw (are_digits-decimal n) (ap (λ k. some (plus k)) (value_behind-decimal n)),
    )
    int (minus n) fits = (
      String.◌∷◌ "-" (decimal (n + 1)),
      refl,
      rw (are_digits-decimal (n + 1)) (
          ap (λ k. some (minus (k - 1))) (value_behind-decimal (n + 1))
          ∙ ap (λ k. some (minus k)) (omega arith)),
    )

-- Two files that set the base directory.
abbrev pub file_of : String → Document
file_of directory' = ("General", ("BaseDirectory", scalar directory') ∷ []) ∷ []

abbrev pub documents : String → Option Document
documents path =
    if str_eq path "first.yml"
    then some (file_of "/first")
    else if str_eq path "second.yml"
    then some (file_of "/second")
    else none

abbrev pub files : FileSystem
files = record { document = documents; is_directory = λ path. directory; opens = λ path. true }

abbrev pub command : String → CompileCommand
command line = record { directory = "/src"; filename = "a.cpp"; command_line = line ∷ [] }

abbrev pub database : Database
database = record {
  commands_of = λ path. command "c++" ∷ command "clang++" ∷ [];
  all_files = "a.cpp" ∷ [];
  all_commands = command "c++" ∷ command "clang++" ∷ [];
}

abbrev pub loaders : Loaders
loaders = record {
  extension = λ path. ".json";
  parent_path = λ path. "";
  load_json = λ path. (some database, "");
  load_fixed = λ path. (none, "");
  auto_detect = λ path. (some database, "");
  load_buffer = λ path text. (none, "");
}

abbrev pub host : Surroundings
host = record {
  files = files;
  scalars = scalars;
  loaders = loaders;
  environment = "second.yml";
  current_path = "/here";
  is_relative = λ path. false;
  absolute = λ path. path;
}

abbrev pub options : Options
options = record {
  argument_count = 4;
  config_files = "first.yml" ∷ [];
  extra_arguments = "-DX" ∷ [];
  remove_arguments = [];
  resource_directory = "";
  base_directory = "";
  backend = none;
  compile_command_index = none;
  blacklist = [];
  compile_commands = none;
  verbose = none;
  quiet = none;
  input = "a.cpp";
  output = "";
  dump_config = false;
  force = false;
  strict = false;
}
