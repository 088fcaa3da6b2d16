-- ===== src/Main/Starts.antt =====
-- main.cpp: when clang's tool is run, and on what.
use ccmock.Base.{
  true, false, none, some, [], ◌≡◌, ◌↔◌, refl, sym, ap, ◌∙◌, leb, is_empty, inl, inr, Bool-cases,
  Option-cases, ok, bind-ok, str_eq,
}
use ccmock.Config.{Config}
use ccmock.Config.Files
use ccmock.Config.Files.{write_document}
use ccmock.CompilationDatabase.{Database, Loaders, load, detect, set_index, is_loaded}
use ccmock.Main.{
  Options, Surroundings, merge_config, complete_paths, adjusters_of, load_database, start_tool,
  dump, color_setting, after_merge, ccmock_main, run_tool, ToolRun,
}

-- The database that a configuration selects: the file that it names, by the file's extension; or,
-- where it names none, what clang finds for the input, else a database without commands in the
-- directory of the input.
pub data Selects (l : Loaders) (c : Config) (d : Database) : Type 0 where
  json :
      is_empty c.clang.compile_commands ≡ false
      → str_eq (l.extension c.clang.compile_commands) ".json" ≡ true
      → (l.load_json c.clang.compile_commands).0 ≡ some d
      → Selects l c d
  fixed :
      is_empty c.clang.compile_commands ≡ false
      → str_eq (l.extension c.clang.compile_commands) ".json" ≡ false
      → str_eq (l.extension c.clang.compile_commands) ".txt" ≡ true
      → (l.load_fixed c.clang.compile_commands).0 ≡ some d
      → Selects l c d
  detected :
      is_empty c.clang.compile_commands ≡ true
      → (l.auto_detect c.general.input).0 ≡ some d
      → Selects l c d
  assumed :
      is_empty c.clang.compile_commands ≡ true
      → (l.auto_detect c.general.input).0 ≡ none
      → (l.load_buffer (l.parent_path c.general.input) "").0 ≡ some d
      → Selects l c d

-- The run of the tool that a merged configuration with completed paths asks for.
abbrev pub run_on : Config → Database → ToolRun
run_on c d = record {
  database = record { database = some d; index = c.clang.compile_command_index };
  config = record c { clang = record (c.clang) { extra_arguments = []; remove_arguments = [] } };
  colors = color_setting c.general.color_mode;
  adjusters = adjusters_of c;
}

module _ (host : Surroundings) where
  load_database-Selects :
      (c : Config) (d : Database)
      → (load_database host c).0.database ≡ some d
      → Selects host.loaders c d
  unfolding load_database load detect set_index
  load_database-Selects c d h = elim (Bool-cases (is_empty c.clang.compile_commands)) [
    | inr named ↦
        elim (Bool-cases (str_eq (host.loaders.extension c.clang.compile_commands) ".json")) [
          | inl e ↦ json named e (rw (named, e) at h)
          | inr e ↦
              elim (Bool-cases (str_eq (host.loaders.extension c.clang.compile_commands) ".txt")) [
                | inl f ↦ fixed named e f (rw (named, e, f) at h)
                | inr f ↦ cc (rw (named, e, f) at h)
              ]
        ]
    | inl unnamed ↦ elim (Option-cases (host.loaders.auto_detect c.general.input).0) [
      | inl e ↦ assumed unnamed e (rw (unnamed, detect, e) at h)
      | inr (found, e) ↦ detected unnamed (e ∙ rw (unnamed, detect, e) at h)
    ]
  ]

  Selects-load_database :
      (c : Config) (d : Database)
      → Selects host.loaders c d
      → (load_database host c).0
        ≡ record { database = some d; index = c.clang.compile_command_index }
  unfolding load_database load detect set_index
  Selects-load_database c d (json a e f) = rw (a, e, f) refl
  Selects-load_database c d (fixed a e e' f) = rw (a, e, e', f) refl
  Selects-load_database c d (detected a f) = rw (a, detect, f) refl
  Selects-load_database c d (assumed a e f) = rw (a, detect, e, f) refl

  start_tool_lem :
      (c : Config) (d : Database)
      → Selects host.loaders (complete_paths host c) d
      → is_empty (complete_paths host c).general.input ≡ false
      → start_tool host c ≡ ok (run_tool (run_on (complete_paths host c) d))
  unfolding start_tool is_loaded
  start_tool_lem c d selects given =
      rw (start_tool, Selects-load_database (complete_paths host c) d selects, given) refl

  start_tool-run_tool :
      (c : Config) {t : ToolRun}
      → start_tool host c ≡ ok (run_tool t)
      → (d : Database) × Selects host.loaders (complete_paths host c) d
        × (is_empty (complete_paths host c).general.input ≡ false)
        × (t ≡ run_on (complete_paths host c) d)
  unfolding start_tool is_loaded
  start_tool-run_tool c h =
      let p = complete_paths host c in
      elim (Option-cases (load_database host p).0.database) [
        | inl e ↦ cc (rw (start_tool, is_loaded, e) at h)
        | inr (d, e) ↦ elim (Bool-cases (is_empty p.general.input)) [
          | inl none_given ↦ cc (rw (start_tool, is_loaded, e, none_given) at h)
          | inr given ↦
              let selects = load_database-Selects p d e in
              (d, selects, given, cc (h, start_tool_lem c d selects given))
        ]
      ]

  dump-run_tool : (c : Config) {t : ToolRun} → dump host c ≡ ok (run_tool t) → ⊥
  unfolding dump
  dump-run_tool c h = elim (Bool-cases (is_empty c.general.output)) [
    | inl e ↦
        let (d, k, l) = bind-ok (write_document host.files host.scalars c) _ (rw e at h) in cc l
    | inr e ↦
        let (d, k, l) =
          bind-ok (Files.write host.files host.scalars c.general.output c) _ (rw e at h) in
        cc l
  ]

  -- The tool is run exactly if there were arguments, the configuration was merged and was not to
  -- be dumped, an input was given, and a database was loaded: the file that the configuration
  -- names, by its extension, or what clang finds for the input, or else one without commands in
  -- the input's directory. It then runs on that database, with the configured index, on the merged
  -- configuration with its paths completed and its lists of arguments moved out, and with the
  -- adjusters made of those lists and the configured colors.
  pub ccmock_main-run_tool :
      (o : Options) (t : ToolRun)
      → (ccmock_main host o ≡ ok (run_tool t)) ↔ (
          (leb o.argument_count 1 ≡ false)
          × (o.dump_config ≡ false)
          × ((merged : Config) × (merge_config host o ≡ ok merged)
              × (is_empty (complete_paths host merged).general.input ≡ false)
              × ((d : Database) × Selects host.loaders (complete_paths host merged) d
                  × (t ≡ run_on (complete_paths host merged) d))))
  unfolding ccmock_main after_merge
  ccmock_main-run_tool o t = (to, from)
    where
      to :
          ccmock_main host o ≡ ok (run_tool t)
          → (leb o.argument_count 1 ≡ false)
            × (o.dump_config ≡ false)
            × ((merged : Config) × (merge_config host o ≡ ok merged)
                × (is_empty (complete_paths host merged).general.input ≡ false)
                × ((d : Database) × Selects host.loaders (complete_paths host merged) d
                    × (t ≡ run_on (complete_paths host merged) d)))
      to h = elim (Bool-cases (leb o.argument_count 1)) [
        | inl e ↦ cc (rw e at h)
        | inr e ↦
            let (c, merged, k) = bind-ok (merge_config host o) _ (rw e at h) in
            elim (Bool-cases o.dump_config) [
              | inl d ↦ absurd (dump-run_tool c (rw d at k))
              | inr d ↦
                  let (database, selects, given, same) = start_tool-run_tool c (rw d at k) in
                  (e, d, (c, merged, given, (database, selects, same)))
            ]
      ]

      from :
          (leb o.argument_count 1 ≡ false)
            × (o.dump_config ≡ false)
            × ((merged : Config) × (merge_config host o ≡ ok merged)
                × (is_empty (complete_paths host merged).general.input ≡ false)
                × ((d : Database) × Selects host.loaders (complete_paths host merged) d
                    × (t ≡ run_on (complete_paths host merged) d)))
          → ccmock_main host o ≡ ok (run_tool t)
      from (e, d, (c, merged, given, (database, selects, same))) =
          rw (ccmock_main, e, merged, d)
            (start_tool_lem c database selects given ∙ ap (λ u. ok (run_tool u)) (sym same))
