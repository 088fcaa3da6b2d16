-- ===== src/Config/RoundTrip.antt =====
-- Reading what `Config::write` wrote gives the settings back.
use mathlib.Core.Path.{subst}
use ccmock.Base.{
  [], ◌∷◌, ok-inj, ap, ◌∙◌, bind, false, Outcome, String, Bool, true, not, ◌&&◌, if◌then◌else◌,
  exit, refl, some, List, ◌≡◌, ◌⊎◌, arith, is_empty, ok, Bool-cases, inl, inr, bind-ok,
}
use ccmock.Config.Types.{
  Config, ClangSection, GeneralSection, MockingSection, GmockSection, FffSection, CmockaSection,
  default_config, default_clang, default_general, default_mocking, default_gmock, default_fff,
  default_cmocka, fits_unsigned, fits_int,
}
use ccmock.Config.Yaml.{
  Document, Node, Field, Codec, Scalars, is_mapping, field_keys, find_key, read_fields,
  write_fields, clang_fields, general_fields, mocking_fields, gmock_fields, fff_fields,
  cmocka_fields, parse_color_mode, print_color_mode, parse_backend, print_backend,
}
use ccmock.Config.Validate.{validate_clang, validate_gmock}
use ccmock.Config.Files.{
  FileSystem, read_found, write_section, no_validation, read_document, read_sections,
  write_document,
}

-- Every value that fits is written as some text that is read as this value.
abbrev pub IsFaithful : {T : Type 0} → (T → Bool) → Codec T → Type 0
IsFaithful {T} fits codec =
    (x : T) → fits x ≡ true → (t : String) × (codec.print x ≡ some t) × (codec.parse t ≡ some x)

abbrev any_bool : Bool → Bool
any_bool b = true

-- For numbers this is asked within the ranges of `unsigned int` and `int` only.
pub record AreFaithful (scalars : Scalars) : Type 0 where
  pub bool : IsFaithful any_bool scalars.bool
  pub unsigned : IsFaithful fits_unsigned scalars.unsigned
  pub int : IsFaithful fits_int scalars.int

-- The numbers of the configuration are values of their C++ types.
pub record IsInRange (c : Config) : Type 0 where
  pub index : fits_unsigned c.clang.compile_command_index ≡ true
  pub arg_history : fits_int c.fff.arg_history_len ≡ true
  pub call_history : fits_int c.fff.call_history_len ≡ true

-- The sections that have a `validate` are valid.
abbrev pub is_valid : FileSystem → Config → Bool
is_valid files c =
    is_empty (validate_clang files.is_directory c.clang) && is_empty (validate_gmock c.gmock)

abbrev written : Node → Node → Node → Node → Node → Node → Document
written a1 a2 a3 a4 a5 a6 =
    ("Clang", a1)
    ∷ ("General", a2)
    ∷ ("Mocking", a3)
    ∷ ("GMock", a4)
    ∷ ("FFF", a5)
    ∷ ("CMocka", a6)
    ∷ []

-- The node is a mapping with these fields, which are read as the section.
abbrev ReadsBack : {S : Type 0} → List (Field S) → Node → S → S → Type 0
ReadsBack fields node start s =
    (is_mapping (field_keys fields) node ≡ true) × (read_fields fields node start ≡ ok s)

module _ {A B : Type 0} (o : Outcome A) (k : A → Outcome B) where
  pub bind-known : {a : A} {r : Outcome B} → o ≡ ok a → k a ≡ r → bind o k ≡ r
  bind-known e f = ap (λ x. bind x k) e ∙ f

  bind-exit : o ≡ exit → bind o k ≡ exit
  bind-exit e = ap (λ x. bind x k) e

module _ (scalars : Scalars) (laws : AreFaithful scalars) where
  cmocka-round_trip :
      (s : CmockaSection) {node : Node}
      → write_fields (cmocka_fields scalars) s ≡ ok node
      → ReadsBack (cmocka_fields scalars) node default_cmocka s
  unfolding write_fields read_fields is_mapping
  cmocka-round_trip s h =
      ground (arith, laws.bool s.output_parameters refl, laws.bool s.strict_mocks refl)

  fff-round_trip :
      (s : FffSection) {node : Node}
      → fits_int s.arg_history_len ≡ true
      → fits_int s.call_history_len ≡ true
      → write_fields (fff_fields scalars) s ≡ ok node
      → ReadsBack (fff_fields scalars) node default_fff s
  unfolding write_fields read_fields is_mapping
  fff-round_trip s e f h =
      ground (arith, laws.int s.arg_history_len e, laws.int s.call_history_len f)

  clang-round_trip :
      (s : ClangSection) {node : Node}
      → fits_unsigned s.compile_command_index ≡ true
      → write_fields (clang_fields scalars) s ≡ ok node
      → ReadsBack (clang_fields scalars) node default_clang s
  unfolding write_fields read_fields is_mapping
  clang-round_trip s e h = ground (arith, laws.unsigned s.compile_command_index e)

  gmock-round_trip :
      (s : GmockSection) {node : Node}
      → write_fields (gmock_fields scalars) s ≡ ok node
      → ReadsBack (gmock_fields scalars) node default_gmock s
  unfolding write_fields read_fields is_mapping
  gmock-round_trip s h = ground (arith, laws.bool s.write_main refl)

  general-round_trip :
      (s : GeneralSection) {node : Node}
      → write_fields (general_fields scalars) s ≡ ok node
      → ReadsBack (general_fields scalars) node default_general s
  unfolding write_fields read_fields print_color_mode parse_color_mode is_mapping
  general-round_trip s h =
      ground (arith, laws.bool s.quiet refl, laws.bool s.verbose refl, laws.bool s.write_date refl)

  mocking-round_trip :
      (s : MockingSection) {node : Node}
      → write_fields (mocking_fields scalars) s ≡ ok node
      → ReadsBack (mocking_fields scalars) node default_mocking s
  unfolding write_fields read_fields print_backend parse_backend is_mapping
  mocking-round_trip s h = ground (
    arith,
    laws.bool s.mock_builtins refl,
    laws.bool s.mock_c_std_lib refl,
    laws.bool s.mock_cxx_std_lib refl,
    laws.bool s.mock_variadic_functions refl,
  )

  write_section-write_fields :
      {S : Type 0} (fields : List (Field S)) (validate : S → String) (s : S) {node : Node}
      → write_section scalars.asserts fields validate s ≡ ok node
      → write_fields fields s ≡ ok node
  write_section-write_fields fields validate s h =
      elim (Bool-cases (not (is_empty (validate s)) && scalars.asserts)) [
        | inl fails ↦ cc (rw fails at h)
        | inr goes_on ↦ rw goes_on at h
      ]

  write_section-valid :
      {S : Type 0} (fields : List (Field S)) (validate : S → String) (s : S) {node : Node}
      → write_section scalars.asserts fields validate s ≡ ok node
      → scalars.asserts ≡ true
      → is_empty (validate s) ≡ true
  write_section-valid fields validate s h asserts = elim (Bool-cases (is_empty (validate s))) [
    | inl valid ↦ valid
    | inr invalid ↦ cc (rw (invalid, asserts) at h)
  ]

  -- What is read back from the node of a section.
  read_found-back :
      {S : Type 0} (fields : List (Field S)) (validate : S → String) (s start : S) (node : Node)
      → ReadsBack fields node start s
      → read_found fields validate (some node) start
        ≡ (if is_empty (validate s) then ok s else exit)
  read_found-back fields validate s start node (known, back) = rw (known, back) refl

  -- The sections in turn, by what each of them gives.
  read_written :
      (files : FileSystem) (c : Config) (a1 a2 a3 a4 a5 a6 : Node) (v1 v4 : Bool)
      → read_found
          (clang_fields scalars)
          (validate_clang files.is_directory)
          (some a1)
          default_clang
        ≡ (if v1 then ok c.clang else exit)
      → read_found (general_fields scalars) no_validation (some a2) default_general ≡ ok c.general
      → read_found (mocking_fields scalars) no_validation (some a3) default_mocking ≡ ok c.mocking
      → read_found (gmock_fields scalars) validate_gmock (some a4) default_gmock
        ≡ (if v4 then ok c.gmock else exit)
      → read_found (fff_fields scalars) no_validation (some a5) default_fff ≡ ok c.fff
      → read_found (cmocka_fields scalars) no_validation (some a6) default_cmocka ≡ ok c.cmocka
      → read_document files scalars (written a1 a2 a3 a4 a5 a6) default_config
        ≡ (if v1 && v4 then ok c else exit)
  unfolding read_document read_sections is_mapping find_key
  read_written files c a1 a2 a3 a4 a5 a6 false v4 r1 r2 r3 r4 r5 r6 = bind-exit _ _ r1
  read_written files c a1 a2 a3 a4 a5 a6 true false r1 r2 r3 r4 r5 r6 =
      bind-known _ _ r1 (bind-known _ _ r2 (bind-known _ _ r3 (bind-exit _ _ r4)))
  read_written files c a1 a2 a3 a4 a5 a6 true true r1 r2 r3 r4 r5 r6 = bind-known _ _ r1 (
      bind-known _ _ r2
        (bind-known _ _ r3 (bind-known _ _ r4 (bind-known _ _ r5 (bind-known _ _ r6 refl)))))

  -- If llvm's scalars read back the values of the numbers' types that they print, a configuration
  -- in these ranges that was written is read back as it was, over the default settings, exactly if
  -- its sections are valid; else reading stops the program. Only a build without `assert` writes
  -- one that is not valid.
  pub read_document-write_document :
      (files : FileSystem) (c : Config) {document : Document}
      → IsInRange c
      → write_document files scalars c ≡ ok document
      → (read_document files scalars document default_config
          ≡ (if is_valid files c then ok c else exit))
        × ((scalars.asserts ≡ false) ⊎ (is_valid files c ≡ true))
  unfolding write_document
  read_document-write_document files c {document} range h =
      let (a1, e1, h1) =
        bind-ok
          (write_section scalars.asserts (clang_fields scalars) (validate_clang files.is_directory)
            c.clang)
          _ h in
      let (a2, e2, h2) =
        bind-ok (write_section scalars.asserts (general_fields scalars) no_validation c.general) _
          h1 in
      let (a3, e3, h3) =
        bind-ok (write_section scalars.asserts (mocking_fields scalars) no_validation c.mocking) _
          h2 in
      let (a4, e4, h4) =
        bind-ok (write_section scalars.asserts (gmock_fields scalars) validate_gmock c.gmock) _
          h3 in
      let (a5, e5, h5) =
        bind-ok (write_section scalars.asserts (fff_fields scalars) no_validation c.fff) _ h4 in
      let (a6, e6, h6) =
        bind-ok (write_section scalars.asserts (cmocka_fields scalars) no_validation c.cmocka) _
          h5 in
      let r1 =
        read_found-back (clang_fields scalars) (validate_clang files.is_directory) c.clang
          default_clang a1
          (clang-round_trip c.clang range.index (
            write_section-write_fields (clang_fields scalars) (validate_clang files.is_directory)
              c.clang e1)) in
      let r2 =
        read_found-back (general_fields scalars) no_validation c.general default_general a2
          (general-round_trip c.general e2) in
      let r3 =
        read_found-back (mocking_fields scalars) no_validation c.mocking default_mocking a3
          (mocking-round_trip c.mocking e3) in
      let r4 = read_found-back (gmock_fields scalars) validate_gmock c.gmock default_gmock a4 (
        gmock-round_trip c.gmock
          (write_section-write_fields (gmock_fields scalars) validate_gmock c.gmock e4)) in
      let r5 =
        read_found-back (fff_fields scalars) no_validation c.fff default_fff a5
          (fff-round_trip c.fff range.arg_history range.call_history e5) in
      let r6 =
        read_found-back (cmocka_fields scalars) no_validation c.cmocka default_cmocka a6
          (cmocka-round_trip c.cmocka e6) in
      let same : written a1 a2 a3 a4 a5 a6 ≡ document = ok-inj h6 in
      (
        subst
            (λ d.
              read_document files scalars d default_config
              ≡ (if is_valid files c then ok c else exit))
            same
            (read_written files c a1 a2 a3 a4 a5 a6
              (is_empty (validate_clang files.is_directory c.clang))
              (is_empty (validate_gmock c.gmock)) r1 r2 r3 r4 r5 r6),
        elim (Bool-cases scalars.asserts) [
          | inr none_made ↦ inl none_made
          | inl asserts ↦
              let clang_valid =
                write_section-valid (clang_fields scalars) (validate_clang files.is_directory)
                  c.clang e1 asserts in
              let gmock_valid =
                write_section-valid (gmock_fields scalars) validate_gmock c.gmock e4 asserts in
              inr (rw (clang_valid, gmock_valid) refl)
        ],
      )
