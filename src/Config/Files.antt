-- ===== src/Config/Files.antt =====
-- Config.cpp: `MappingTraits<Config>`, `Config::read` and `Config::write`. `exit` stands for the
-- failures that `read` and `write` report before they stop the program.
use ccmock.Base.{
  String, Bool, not, ◌&&◌, Option, none, some, List, [], ◌∷◌, if◌then◌else◌, is_empty, Outcome, ok,
  exit, fault, bind,
}
use ccmock.Config.Types.{Config}
use ccmock.Config.Validate.{DirectoryTest, validate_clang, validate_gmock}
use ccmock.Config.Yaml.{
  Document, Node, Field, Scalars, is_mapping, field_keys, find_key, read_fields, write_fields,
  clang_fields, general_fields, mocking_fields, gmock_fields, fff_fields, cmocka_fields,
}

-- What a file or a parsed text is: `document` is llvm's parser on the file of that name, with
-- `none` for a file that cannot be opened or whose text is no YAML.
pub record FileSystem : Type 0 where
  pub document : String → Option Document
  pub is_directory : String → DirectoryTest
  pub opens : String → Bool

-- A section that the document has is read, and then validated; every error ends the program.
abbrev pub read_found : {S : Type 0} → List (Field S) → (S → String) → Option Node → S → Outcome S
read_found fields validate none s = ok s
read_found fields validate (some node) s =
    if is_mapping (field_keys fields) node
    then bind (read_fields fields node s) (λ t. if is_empty (validate t) then ok t else exit)
    else exit

abbrev pub read_section :
    {S : Type 0} → String → List (Field S) → (S → String) → Document → S → Outcome S
read_section key fields validate document s = read_found fields validate (find_key key document) s

-- A section is validated before it is written; an invalid one is reported and fails the `assert`,
-- and is written in a build without it.
abbrev pub write_section : {S : Type 0} → Bool → List (Field S) → (S → String) → S → Outcome Node
write_section asserts fields validate s =
    if not (is_empty (validate s)) && asserts then fault else write_fields fields s

abbrev pub section_keys : List String
section_keys = "Clang" ∷ "General" ∷ "Mocking" ∷ "GMock" ∷ "FFF" ∷ "CMocka" ∷ []

abbrev pub no_validation {ℓ} : {S : Type ℓ} → S → String
no_validation s = ""

module _ (files : FileSystem) (scalars : Scalars) where
  -- the sections, one after the other
  unfoldable pub read_sections : Document → Config → Outcome Config
  unfolding is_mapping find_key read_fields validate_clang validate_gmock
  read_sections document c =
      bind
        (read_section "Clang" (clang_fields scalars) (validate_clang files.is_directory) document
          c.clang)
        (λ clang.
          bind (read_section "General" (general_fields scalars) no_validation document c.general)
            (λ general.
              bind
                (read_section "Mocking" (mocking_fields scalars) no_validation document c.mocking)
                (λ mocking.
                  bind (read_section "GMock" (gmock_fields scalars) validate_gmock document c.gmock)
                    (λ gmock.
                      bind (read_section "FFF" (fff_fields scalars) no_validation document c.fff)
                        (λ fff.
                          bind
                            (read_section "CMocka" (cmocka_fields scalars) no_validation document
                              c.cmocka)
                            (λ cmocka. ok (record {
                              clang = clang;
                              general = general;
                              mocking = mocking;
                              gmock = gmock;
                              fff = fff;
                              cmocka = cmocka;
                            })))))))

  unfoldable pub read_document : Document → Config → Outcome Config
  unfolding read_sections is_mapping
  read_document document c =
      if is_mapping section_keys document then read_sections document c else exit

  -- `Config::read`
  unfoldable pub read : String → Config → Outcome Config
  unfolding read_document
  read path c = elim (files.document path) [
    | none ↦ exit
    | some document ↦ read_document document c
  ]

  -- `Config::write` on a stream
  unfoldable pub write_document : Config → Outcome Document
  unfolding write_fields validate_clang validate_gmock
  write_document c =
      bind
        (write_section scalars.asserts (clang_fields scalars) (validate_clang files.is_directory)
          c.clang)
        (λ clang.
          bind (write_section scalars.asserts (general_fields scalars) no_validation c.general)
            (λ general.
              bind (write_section scalars.asserts (mocking_fields scalars) no_validation c.mocking)
                (λ mocking.
                  bind (write_section scalars.asserts (gmock_fields scalars) validate_gmock c.gmock)
                    (λ gmock.
                      bind (write_section scalars.asserts (fff_fields scalars) no_validation c.fff)
                        (λ fff.
                          bind
                            (write_section scalars.asserts (cmocka_fields scalars) no_validation
                              c.cmocka)
                            (λ cmocka. ok (
                              ("Clang", clang)
                              ∷ ("General", general)
                              ∷ ("Mocking", mocking)
                              ∷ ("GMock", gmock)
                              ∷ ("FFF", fff)
                              ∷ ("CMocka", cmocka)
                              ∷ [])))))))

  -- `Config::write` on a path
  unfoldable pub write : String → Config → Outcome Document
  unfolding write_document
  write path c = if not (files.opens path) then exit else write_document c
