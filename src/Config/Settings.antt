-- ===== src/Config/Settings.antt =====
-- Config.cpp: what reading a document does to the settings that the command line can set too.
use mathlib.Core.Path.{subst}
use ccmock.Base.{
  or_given, ok-inj, sym, ap, ◌∙◌, Option-cases, bind, inl, inr, Outcome, String, Option, none, some,
  List, ◌≡◌, refl, ok,
}
use ccmock.Config.Types.{fits_unsigned, Config, ClangSection, GeneralSection, MockingSection}
use ccmock.Config.Validate.{validate_clang}
use ccmock.Config.Yaml.{
  Value, scalar, sequence, Document, Node, Codec, checked, Field, Scalars, find_key, text, backend,
  read_fields, color_mode, scalar_field, sequence_field, clang_fields, general_fields,
  mocking_fields,
}
use ccmock.Config.Files.{FileSystem, read_document, read_found, no_validation}
use ccmock.Config.Sections.{read_found-some, read_document-sections}

abbrev pub scalar_in : {T : Type 0} → Codec T → Option Value → Option T
scalar_in codec none = none
scalar_in codec (some (scalar s)) = codec.parse s
scalar_in codec (some (sequence ts)) = none

abbrev pub texts_in : Option Value → Option (List String)
texts_in none = none
texts_in (some (scalar s)) = none
texts_in (some (sequence ts)) = some ts

abbrev pub value_in : String → Option Node → Option Value
value_in key none = none
value_in key (some node) = find_key key node

read_found-fields :
    {S : Type 0} (fields : List (Field S)) (validate : S → String)
    (Reads : Option Node → S → Type 0) (s : S) {t : S}
    → Reads none s
    → ((node : Node) → read_fields fields node s ≡ ok t → Reads (some node) t)
    → (o : Option Node) → read_found fields validate o s ≡ ok t
    → Reads o t
read_found-fields fields validate Reads s {t} absent found none h =
    let e : s ≡ t = cc in subst (λ u. Reads none u) e absent
read_found-fields fields validate Reads s absent found (some node) h =
    found node (read_found-some fields validate node s h).0

-- One line of a mapping, and behind it the others.
module _ {S : Type 0} (node : Node) (s : S) {t : S} (rest : S → Outcome S) where
  scalar_field-given :
      {T : Type 0} (codec : Codec T) (get : S → T) (put : T → S → S) (key : String)
      → put (get s) s ≡ s
      → bind
          (elim (find_key key node) [
            | none ↦ ok s
            | some v ↦ (scalar_field key codec get put).read v s
          ])
          rest
        ≡ ok t
      → rest (put (or_given (scalar_in codec (find_key key node)) (get s)) s) ≡ ok t
  scalar_field-given codec get put key same h = go (find_key key node) h
    where
      go :
          (o : Option Value)
          → bind (elim o [ none ↦ ok s | some v ↦ (scalar_field key codec get put).read v s ]) rest
            ≡ ok t
          → rest (put (or_given (scalar_in codec o) (get s)) s) ≡ ok t
      go none k = ap rest same ∙ k
      go (some (sequence ts)) k = cc
      go (some (scalar x)) k = elim (Option-cases (codec.parse x)) [
        | inl e ↦ cc (rw e at k)
        | inr (y, e) ↦ rw e (rw e at k)
      ]

  sequence_field-given :
      (get : S → List String) (put : List String → S → S) (key : String)
      → put (get s) s ≡ s
      → bind
          (elim (find_key key node) [
            | none ↦ ok s
            | some v ↦ (sequence_field key get put).read v s
          ])
          rest
        ≡ ok t
      → rest (put (or_given (texts_in (find_key key node)) (get s)) s) ≡ ok t
  sequence_field-given get put key same h = go (find_key key node) h
    where
      go :
          (o : Option Value)
          → bind (elim o [ none ↦ ok s | some v ↦ (sequence_field key get put).read v s ]) rest
            ≡ ok t
          → rest (put (or_given (texts_in o) (get s)) s) ≡ ok t
      go none k = ap rest same ∙ k
      go (some (sequence ts)) k = k
      go (some (scalar x)) k = cc

module _ (scalars : Scalars) where
  abbrev ReadsClang : ClangSection → Option Node → ClangSection → Type 0
  ReadsClang s o t =
      (t.compile_commands
        ≡ or_given (scalar_in text (value_in "CompileCommands" o)) s.compile_commands)
      × (t.extra_arguments ≡ or_given (texts_in (value_in "ExtraArguments" o)) s.extra_arguments)
      × (t.remove_arguments ≡ or_given (texts_in (value_in "RemoveArguments" o)) s.remove_arguments)
      × (t.resource_directory
          ≡ or_given (scalar_in text (value_in "ResourceDirectory" o)) s.resource_directory)
      × (t.compile_command_index
          ≡ or_given
              (scalar_in (checked fits_unsigned scalars.unsigned)
                (value_in "CompileCommandIndex" o))
              s.compile_command_index)

  clang_fields-read :
      (node : Node) (s : ClangSection) {t : ClangSection}
      → read_fields (clang_fields scalars) node s ≡ ok t
      → ReadsClang s (some node) t
  unfolding read_fields
  clang_fields-read node s h =
      let h1 =
        scalar_field-given node _ _ text (λ u. u.compile_commands)
          (λ x u. record u { compile_commands = x }) "CompileCommands" refl h in
      let h2 =
        sequence_field-given node _ _ (λ u. u.extra_arguments)
          (λ x u. record u { extra_arguments = x }) "ExtraArguments" refl h1 in
      let h3 =
        sequence_field-given node _ _ (λ u. u.remove_arguments)
          (λ x u. record u { remove_arguments = x }) "RemoveArguments" refl h2 in
      let h4 =
        scalar_field-given node _ _ text (λ u. u.resource_directory)
          (λ x u. record u { resource_directory = x }) "ResourceDirectory" refl h3 in
      let h5 =
        scalar_field-given node _ _ (checked fits_unsigned scalars.unsigned)
          (λ u. u.compile_command_index) (λ x u. record u { compile_command_index = x })
          "CompileCommandIndex" refl h4 in
      let last = ok-inj h5 in
      (
        sym (ap (λ (u : ClangSection). u.compile_commands) last),
        sym (ap (λ (u : ClangSection). u.extra_arguments) last),
        sym (ap (λ (u : ClangSection). u.remove_arguments) last),
        sym (ap (λ (u : ClangSection). u.resource_directory) last),
        sym (ap (λ (u : ClangSection). u.compile_command_index) last),
      )

  abbrev ReadsGeneral : GeneralSection → Option Node → GeneralSection → Type 0
  ReadsGeneral s o t =
      (t.base_directory ≡ or_given (scalar_in text (value_in "BaseDirectory" o)) s.base_directory)
      × (t.input ≡ or_given (scalar_in text (value_in "Input" o)) s.input)
      × (t.output ≡ or_given (scalar_in text (value_in "Output" o)) s.output)
      × (t.quiet ≡ or_given (scalar_in scalars.bool (value_in "Quiet" o)) s.quiet)
      × (t.verbose ≡ or_given (scalar_in scalars.bool (value_in "Verbose" o)) s.verbose)

  general_fields-read :
      (node : Node) (s : GeneralSection) {t : GeneralSection}
      → read_fields (general_fields scalars) node s ≡ ok t
      → ReadsGeneral s (some node) t
  unfolding read_fields
  general_fields-read node s h =
      let h1 =
        scalar_field-given node _ _ text (λ u. u.base_directory)
          (λ x u. record u { base_directory = x }) "BaseDirectory" refl h in
      let h2 =
        scalar_field-given node _ _ text (λ u. u.input) (λ x u. record u { input = x }) "Input" refl
          h1 in
      let h3 =
        scalar_field-given node _ _ text (λ u. u.output) (λ x u. record u { output = x }) "Output"
          refl h2 in
      let h4 =
        scalar_field-given node _ _ color_mode (λ u. u.color_mode)
          (λ x u. record u { color_mode = x }) "ColorMode" refl h3 in
      let h5 =
        scalar_field-given node _ _ scalars.bool (λ u. u.quiet) (λ x u. record u { quiet = x })
          "Quiet" refl h4 in
      let h6 =
        scalar_field-given node _ _ scalars.bool (λ u. u.verbose) (λ x u. record u { verbose = x })
          "Verbose" refl h5 in
      let h7 =
        scalar_field-given node _ _ scalars.bool (λ u. u.write_date)
          (λ x u. record u { write_date = x }) "WriteDate" refl h6 in
      let last = ok-inj h7 in
      (
        sym (ap (λ (u : GeneralSection). u.base_directory) last),
        sym (ap (λ (u : GeneralSection). u.input) last),
        sym (ap (λ (u : GeneralSection). u.output) last),
        sym (ap (λ (u : GeneralSection). u.quiet) last),
        sym (ap (λ (u : GeneralSection). u.verbose) last),
      )

  abbrev ReadsMocking : MockingSection → Option Node → MockingSection → Type 0
  ReadsMocking s o t =
      (t.backend ≡ or_given (scalar_in backend (value_in "Backend" o)) s.backend)
      × (t.blacklist ≡ or_given (texts_in (value_in "Blacklist" o)) s.blacklist)

  mocking_fields-read :
      (node : Node) (s : MockingSection) {t : MockingSection}
      → read_fields (mocking_fields scalars) node s ≡ ok t
      → ReadsMocking s (some node) t
  unfolding read_fields
  mocking_fields-read node s h =
      let h1 =
        sequence_field-given node _ _ (λ u. u.blacklist) (λ x u. record u { blacklist = x })
          "Blacklist" refl h in
      let h2 =
        scalar_field-given node _ _ backend (λ u. u.backend) (λ x u. record u { backend = x })
          "Backend" refl h1 in
      let h3 =
        scalar_field-given node _ _ scalars.bool (λ u. u.mock_builtins)
          (λ x u. record u { mock_builtins = x }) "MockBuiltins" refl h2 in
      let h4 =
        scalar_field-given node _ _ scalars.bool (λ u. u.mock_c_std_lib)
          (λ x u. record u { mock_c_std_lib = x }) "MockCStdLib" refl h3 in
      let h5 =
        scalar_field-given node _ _ scalars.bool (λ u. u.mock_cxx_std_lib)
          (λ x u. record u { mock_cxx_std_lib = x }) "MockC++StdLib" refl h4 in
      let h6 =
        scalar_field-given node _ _ scalars.bool (λ u. u.mock_variadic_functions)
          (λ x u. record u { mock_variadic_functions = x }) "MockVariadicFunctions" refl h5 in
      let last = ok-inj h6 in
      (
        sym (ap (λ (u : MockingSection). u.backend) last),
        sym (ap (λ (u : MockingSection). u.blacklist) last),
      )

  -- What a document says of the settings.
  abbrev pub Reads : Config → Document → Config → Type 0
  Reads c document c' =
      ReadsClang c.clang (find_key "Clang" document) c'.clang
      × ReadsGeneral c.general (find_key "General" document) c'.general
      × ReadsMocking c.mocking (find_key "Mocking" document) c'.mocking

  pub read_document-Reads :
      (files : FileSystem) (document : Document) (c : Config) {c' : Config}
      → read_document files scalars document c ≡ ok c'
      → Reads c document c'
  read_document-Reads files document c {c'} h =
      let (clang, general, mocking, gmock, fff) =
        read_document-sections scalars files document c h in
      (
        read_found-fields (clang_fields scalars) (validate_clang files.is_directory)
            (ReadsClang c.clang) c.clang (refl, refl, refl, refl, refl)
            (λ node e. clang_fields-read node c.clang e) (find_key "Clang" document) clang,
        read_found-fields (general_fields scalars) no_validation (ReadsGeneral c.general) c.general
            (refl, refl, refl, refl, refl) (λ node e. general_fields-read node c.general e)
            (find_key "General" document) general,
        read_found-fields (mocking_fields scalars) no_validation (ReadsMocking c.mocking) c.mocking
            (refl, refl) (λ node e. mocking_fields-read node c.mocking e)
            (find_key "Mocking" document) mocking,
      )
