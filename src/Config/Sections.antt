-- ===== src/Config/Sections.antt =====
-- Config.cpp: what reading a document does to each section, and to each setting of a section that
-- the command line can set too.
use mathlib.Core.Path.{subst}
use ccmock.Base.{
  String, Bool, true, false, some, List, ◌≡◌, refl, ◌∙◌, is_empty, if◌then◌else◌, Outcome, ok, exit,
  ok-inj, bind-ok,
}
use ccmock.Config.Types.{Config}
use ccmock.Config.Validate.{validate_clang, validate_gmock}
use ccmock.Config.Yaml.{
  Document, Node, Field, Scalars, is_mapping, field_keys, read_fields, clang_fields, general_fields,
  mocking_fields, gmock_fields, fff_fields, cmocka_fields,
}
use ccmock.Config.Files.{
  FileSystem, read_document, read_sections, read_section, read_found, section_keys, no_validation,
}

if-ok :
    {S : Type 0} (b : Bool) {o : Outcome S} {t : S}
    → (if b then o else exit) ≡ ok t
    → (b ≡ true) × (o ≡ ok t)
if-ok true h = (refl, h)
if-ok false h = cc

-- A section that is read is a mapping with its fields, and is valid behind them.
pub read_found-some :
    {S : Type 0} (fields : List (Field S)) (validate : S → String) (node : Node) (s : S) {t : S}
    → read_found fields validate (some node) s ≡ ok t
    → (read_fields fields node s ≡ ok t) × (is_empty (validate t) ≡ true)
read_found-some fields validate node s {t} h =
    let (known, h1) = if-ok (is_mapping (field_keys fields) node) h in
    let (u, e, k) = bind-ok (read_fields fields node s) _ h1 in
    let (valid, same) = if-ok (is_empty (validate u)) k in
    let found : u ≡ t = ok-inj same in
    (e ∙ same, subst (λ x. is_empty (validate x) ≡ true) found valid)

module _ (scalars : Scalars) where
  -- Each section is read by itself.
  pub read_document-sections :
      (files : FileSystem) (document : Document) (c : Config) {c' : Config}
      → read_document files scalars document c ≡ ok c'
      → (read_section "Clang"
            (clang_fields scalars)
            (validate_clang files.is_directory)
            document
            c.clang
          ≡ ok c'.clang)
        × (read_section "General" (general_fields scalars) no_validation document c.general
            ≡ ok c'.general)
        × (read_section "Mocking" (mocking_fields scalars) no_validation document c.mocking
            ≡ ok c'.mocking)
        × (read_section "GMock" (gmock_fields scalars) validate_gmock document c.gmock
            ≡ ok c'.gmock)
        × (read_section "FFF" (fff_fields scalars) no_validation document c.fff ≡ ok c'.fff)
  unfolding read_document read_sections
  read_document-sections files document c h0 =
      let (known, h) = if-ok (is_mapping section_keys document) h0 in
      let (clang, e1, h1) =
        bind-ok
          (read_section "Clang" (clang_fields scalars) (validate_clang files.is_directory) document
            c.clang)
          _ h in
      let (general, e2, h2) =
        bind-ok (read_section "General" (general_fields scalars) no_validation document c.general) _
          h1 in
      let (mocking, e3, h3) =
        bind-ok (read_section "Mocking" (mocking_fields scalars) no_validation document c.mocking) _
          h2 in
      let (gmock, e4, h4) =
        bind-ok (read_section "GMock" (gmock_fields scalars) validate_gmock document c.gmock) _
          h3 in
      let (fff, e5, h5) =
        bind-ok (read_section "FFF" (fff_fields scalars) no_validation document c.fff) _ h4 in
      let (cmocka, e6, h6) =
        bind-ok (read_section "CMocka" (cmocka_fields scalars) no_validation document c.cmocka) _
          h5 in
      (cc, cc, cc, cc, cc)
