-- ===== src/Main/Sources.antt =====
-- Where the settings that the command line can set too stand in the configuration and in a file.
use ccmock.Base.{or_given, ℕ, String, Bool, Option, List, ◌≡◌, ok}
use ccmock.Config.{fits_unsigned, Config, Backend}
use ccmock.Config.Yaml.{checked, Document, Scalars, find_key, text, backend}
use ccmock.Config.Files.{FileSystem, read_document}
use ccmock.Config.Settings.{scalar_in, texts_in, value_in, read_document-Reads}

-- A setting: where it stands in the configuration, and what a document gives for it.
pub record Setting (scalars : Scalars) (A : Type 0) : Type 0 where
  pub get : Config → A
  pub given : Document → Option A
  pub read_gives :
      (files : FileSystem) (document : Document) (c : Config) {c' : Config}
      → read_document files scalars document c ≡ ok c'
      → get c' ≡ or_given (given document) (get c)

module _ (scalars : Scalars) where
  abbrev pub compile_commands : Setting scalars String
  compile_commands = record {
    get = λ c. c.clang.compile_commands;
    given = λ d. scalar_in text (value_in "CompileCommands" (find_key "Clang" d));
    read_gives = λ files d c h. (read_document-Reads scalars files d c h).0.0;
  }

  abbrev pub extra_arguments : Setting scalars (List String)
  extra_arguments = record {
    get = λ c. c.clang.extra_arguments;
    given = λ d. texts_in (value_in "ExtraArguments" (find_key "Clang" d));
    read_gives = λ files d c h. (read_document-Reads scalars files d c h).0.1;
  }

  abbrev pub remove_arguments : Setting scalars (List String)
  remove_arguments = record {
    get = λ c. c.clang.remove_arguments;
    given = λ d. texts_in (value_in "RemoveArguments" (find_key "Clang" d));
    read_gives = λ files d c h. (read_document-Reads scalars files d c h).0.2;
  }

  abbrev pub resource_directory : Setting scalars String
  resource_directory = record {
    get = λ c. c.clang.resource_directory;
    given = λ d. scalar_in text (value_in "ResourceDirectory" (find_key "Clang" d));
    read_gives = λ files d c h. (read_document-Reads scalars files d c h).0.3;
  }

  abbrev pub compile_command_index : Setting scalars ℕ
  compile_command_index = record {
    get = λ c. c.clang.compile_command_index;
    given = λ d.
        scalar_in (checked fits_unsigned scalars.unsigned)
          (value_in "CompileCommandIndex" (find_key "Clang" d));
    read_gives = λ files d c h. (read_document-Reads scalars files d c h).0.4;
  }

  abbrev pub base_directory : Setting scalars String
  base_directory = record {
    get = λ c. c.general.base_directory;
    given = λ d. scalar_in text (value_in "BaseDirectory" (find_key "General" d));
    read_gives = λ files d c h. (read_document-Reads scalars files d c h).1.0;
  }

  abbrev pub input : Setting scalars String
  input = record {
    get = λ c. c.general.input;
    given = λ d. scalar_in text (value_in "Input" (find_key "General" d));
    read_gives = λ files d c h. (read_document-Reads scalars files d c h).1.1;
  }

  abbrev pub output : Setting scalars String
  output = record {
    get = λ c. c.general.output;
    given = λ d. scalar_in text (value_in "Output" (find_key "General" d));
    read_gives = λ files d c h. (read_document-Reads scalars files d c h).1.2;
  }

  abbrev pub quiet : Setting scalars Bool
  quiet = record {
    get = λ c. c.general.quiet;
    given = λ d. scalar_in scalars.bool (value_in "Quiet" (find_key "General" d));
    read_gives = λ files d c h. (read_document-Reads scalars files d c h).1.3;
  }

  abbrev pub verbose : Setting scalars Bool
  verbose = record {
    get = λ c. c.general.verbose;
    given = λ d. scalar_in scalars.bool (value_in "Verbose" (find_key "General" d));
    read_gives = λ files d c h. (read_document-Reads scalars files d c h).1.4;
  }

  abbrev pub backend_setting : Setting scalars Backend
  backend_setting = record {
    get = λ c. c.mocking.backend;
    given = λ d. scalar_in backend (value_in "Backend" (find_key "Mocking" d));
    read_gives = λ files d c h. (read_document-Reads scalars files d c h).2.0;
  }

  abbrev pub blacklist : Setting scalars (List String)
  blacklist = record {
    get = λ c. c.mocking.blacklist;
    given = λ d. texts_in (value_in "Blacklist" (find_key "Mocking" d));
    read_gives = λ files d c h. (read_document-Reads scalars files d c h).2.1;
  }
