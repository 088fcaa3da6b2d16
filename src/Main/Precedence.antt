-- ===== src/Main/Precedence.antt =====
-- Which source of a setting wins.
use ccmock.Base.{
  or_given, String, Bool, true, false, not, Option, none, some, List, [], ◌∷◌, ◌≡◌, refl, sym, ap,
  ◌∙◌, is_empty, if◌then◌else◌, ok, bind-ok, when,
}
use ccmock.Config.{Config, default_config}
use ccmock.Config.Yaml.{Document}
use ccmock.Config.Files.{read}
use ccmock.Main.{
  Options, Surroundings, or_text, or_list, map_index, merge_config, read_all, read_config_files,
  apply_options,
}
use ccmock.Main.Sources.{
  Setting, compile_commands, extra_arguments, remove_arguments, resource_directory,
  compile_command_index, base_directory, input, output, quiet, verbose, backend_setting, blacklist,
}

module _ (host : Surroundings) where
  module _ {A : Type 0} (setting : Setting host.scalars A) where
    abbrev pub given_by : Option Document → Option A
    given_by none = none
    given_by (some document) = setting.given document

    -- What the files at these paths say, in the order in which they are read: the last one wins.
    abbrev pub latest : List String → A → A
    latest [] old = old
    latest (path ∷ paths) old = latest paths (or_given (given_by (host.files.document path)) old)

    read-latest :
        (path : String) (c : Config) {c' : Config}
        → read host.files host.scalars path c ≡ ok c'
        → setting.get c' ≡ or_given (given_by (host.files.document path)) (setting.get c)
    unfolding read
    read-latest path c {c'} h = go (host.files.document path) refl
      where
        go :
            (o : Option Document)
            → host.files.document path ≡ o
            → setting.get c' ≡ or_given (given_by (host.files.document path)) (setting.get c)
        go none e = cc (rw (e, read) at h)
        go (some document) e = rw e (setting.read_gives host.files document c (rw (e, read) at h))

    files-latest :
        (paths : List String) (c : Config) {c' : Config}
        → read_config_files host paths c ≡ ok c'
        → setting.get c' ≡ latest paths (setting.get c)
    unfolding read_config_files
    files-latest [] c {c'} h = let e : c ≡ c' = cc in ap (λ d. setting.get d) (sym e)
    files-latest (path ∷ paths) c h =
        let (d, e, k) = bind-ok (read host.files host.scalars path c) _ h in
        files-latest paths d k ∙ ap (latest paths) (read-latest path c e)

  abbrev pub environment_paths : List String
  environment_paths = if not (is_empty host.environment) then host.environment ∷ [] else []

  module _ {A : Type 0} (setting : Setting host.scalars A) where
    environment-latest :
        (c : Config) {c' : Config}
        → when (not (is_empty host.environment)) (read host.files host.scalars host.environment) c
          ≡ ok c'
        → setting.get c' ≡ latest setting environment_paths (setting.get c)
    environment-latest c {c'} h = go (is_empty host.environment) refl h
      where
        go :
            (b : Bool)
            → is_empty host.environment ≡ b
            → (if not b then read host.files host.scalars host.environment c else ok c) ≡ ok c'
            → setting.get c'
              ≡ latest setting (if not b then host.environment ∷ [] else []) (setting.get c)
        go true e k = let same : c ≡ c' = cc in ap (λ d. setting.get d) (sym same)
        go false e k = read-latest setting host.environment c k

    -- The file that the environment names over the files on the command line over the default.
    abbrev pub file_value : Options → A
    file_value o =
        latest setting environment_paths
          (latest setting o.config_files (setting.get default_config))

    read_all-file_value :
        (o : Options) {c : Config} → read_all host o ≡ ok c → setting.get c ≡ file_value o
    unfolding read_all
    read_all-file_value o h =
        let (f, e, k) = bind-ok (read_config_files host o.config_files default_config) _ h in
        environment-latest f k
        ∙ ap (latest setting environment_paths)
            (files-latest setting o.config_files default_config e)

  -- Each setting that has an option is what the option says over what the files say.
  abbrev pub FollowsPrecedence : Options → Config → Type 0
  FollowsPrecedence o c =
      (c.clang.compile_commands
        ≡ or_given o.compile_commands (file_value (compile_commands host.scalars) o))
      × (c.clang.extra_arguments
          ≡ or_list o.extra_arguments (file_value (extra_arguments host.scalars) o))
      × (c.clang.remove_arguments
          ≡ or_list o.remove_arguments (file_value (remove_arguments host.scalars) o))
      × (c.clang.resource_directory
          ≡ or_text o.resource_directory (file_value (resource_directory host.scalars) o))
      × (c.clang.compile_command_index
          ≡ or_given (map_index o.compile_command_index)
              (file_value (compile_command_index host.scalars) o))
      × (c.general.base_directory
          ≡ or_text o.base_directory (file_value (base_directory host.scalars) o))
      × (c.general.input ≡ or_text o.input (file_value (input host.scalars) o))
      × (c.general.output ≡ or_text o.output (file_value (output host.scalars) o))
      × (c.general.quiet ≡ or_given o.quiet (file_value (quiet host.scalars) o))
      × (c.general.verbose ≡ or_given o.verbose (file_value (verbose host.scalars) o))
      × (c.mocking.backend ≡ or_given o.backend (file_value (backend_setting host.scalars) o))
      × (c.mocking.blacklist ≡ or_list o.blacklist (file_value (blacklist host.scalars) o))

  module _ {A : Type 0} (setting : Setting host.scalars A) where
    merged :
        (combine : A → A) (o : Options) {c d : Config}
        → apply_options o d ≡ c
        → read_all host o ≡ ok d
        → ((x : Config) → setting.get (apply_options o x) ≡ combine (setting.get x))
        → setting.get c ≡ combine (file_value setting o)
    merged combine o {c} {d} same e option =
        ap (λ x. setting.get x) (sym same) ∙ option d ∙ ap combine (read_all-file_value setting o e)

  -- In a merged configuration every setting that has an option is the option's, if the option is
  -- given, which for the lists and the texts but the compilation database means that it is not
  -- empty; else what the file that the environment names says of it; else what the last file on
  -- the command line that says something of it says; else the default. The index of the compile
  -- command is cut to 32 bits.
  pub merge_config-FollowsPrecedence :
      (o : Options) {c : Config} → merge_config host o ≡ ok c → FollowsPrecedence o c
  unfolding merge_config apply_options
  merge_config-FollowsPrecedence o {c} h =
      let (d, e, k) = bind-ok (read_all host o) _ h in
      let same : apply_options o d ≡ c = cc in
      (
        merged (compile_commands host.scalars) (or_given o.compile_commands) o same e (λ x. refl),
        merged (extra_arguments host.scalars) (or_list o.extra_arguments) o same e (λ x. refl),
        merged (remove_arguments host.scalars) (or_list o.remove_arguments) o same e (λ x. refl),
        merged (resource_directory host.scalars) (or_text o.resource_directory) o same e
            (λ x. refl),
        merged (compile_command_index host.scalars) (or_given (map_index o.compile_command_index)) o
            same e (λ x. refl),
        merged (base_directory host.scalars) (or_text o.base_directory) o same e (λ x. refl),
        merged (input host.scalars) (or_text o.input) o same e (λ x. refl),
        merged (output host.scalars) (or_text o.output) o same e (λ x. refl),
        merged (quiet host.scalars) (or_given o.quiet) o same e (λ x. refl),
        merged (verbose host.scalars) (or_given o.verbose) o same e (λ x. refl),
        merged (backend_setting host.scalars) (or_given o.backend) o same e (λ x. refl),
        merged (blacklist host.scalars) (or_list o.blacklist) o same e (λ x. refl),
      )
