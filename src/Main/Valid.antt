-- ===== src/Main/Valid.antt =====
-- Config.cpp, main.cpp: what holds of every configuration that the program goes on with.
use mathlib.Core.Path.{subst}
use ccmock.Base.{
  String, true, false, not, Option, none, some, List, [], ◌∷◌, ◌≡◌, ◌⊎◌, inl, inr, refl, sym, ap,
  ◌∙◌, ◌<>◌, is_empty, is_empty-append, any, str_eq, Bool-cases, ok, bind-ok, when,
}
use ccmock.Config.{Config, ClangSection, GmockSection, default_config}
use ccmock.Config.Validate.{
  DirectoryTest, directory, not_directory, failed, validate_clang, validate_gmock, has_underscore,
  valid_mock_types,
}
use ccmock.Config.Yaml.{Document, Node, Field, find_key, clang_fields, gmock_fields}
use ccmock.Config.Files.{read, read_found}
use ccmock.Config.Sections.{read_found-some, read_document-sections}
use ccmock.Main.{Options, Surroundings, merge_config, read_all, read_config_files, apply_options}

-- The fixture's name can stand in a test's name, and gtest has such a kind of mock.
pub record IsValidGmock (s : GmockSection) : Type 0 where
  pub fixture_name : has_underscore s.test_fixture_name ≡ false
  pub known_mock_type : any (λ value. str_eq value s.mock_type) valid_mock_types ≡ true

-- The resource directory is a directory, if there is one.
abbrev pub IsValidClang : (String → DirectoryTest) → ClangSection → Type 0
IsValidClang test s =
    (is_empty s.resource_directory ≡ true) ⊎ (test s.resource_directory ≡ directory)

validate_gmock-IsValidGmock :
    (s : GmockSection) → is_empty (validate_gmock s) ≡ true → IsValidGmock s
unfolding validate_gmock
validate_gmock-IsValidGmock s h = elim (Bool-cases (has_underscore s.test_fixture_name)) [
  | inl e ↦ absurd (cc (rw e at h))
  | inr e ↦ elim (Bool-cases (any (λ value. str_eq value s.mock_type) valid_mock_types)) [
    | inl f ↦ record { fixture_name = e; known_mock_type = f }
    | inr f ↦ absurd (cc (rw (e, f) at h))
  ]
]

validate_clang-IsValidClang :
    (test : String → DirectoryTest) (s : ClangSection)
    → is_empty (validate_clang test s) ≡ true
    → IsValidClang test s
unfolding validate_clang
validate_clang-IsValidClang test s h = elim (Bool-cases (is_empty s.resource_directory)) [
  | inl e ↦ inl e
  | inr e ↦ inr (go (test s.resource_directory) (rw e at h))
]
  where
    go :
        (r : DirectoryTest)
        → is_empty (elim r [
          | directory ↦ ""
          | failed message ↦ "Clang.ResourceDirectory: " <> message
          | not_directory ↦
              "Clang.ResourceDirectory: "
              <> ("\"" <> (s.resource_directory <> "\" is not a directory"))
        ])
          ≡ true
        → r ≡ directory
    go directory k = refl
    go (failed message) k = cc (k, is_empty-append "Clang.ResourceDirectory: " message refl)
    go not_directory k = cc (
      k,
      is_empty-append "Clang.ResourceDirectory: "
          ("\"" <> (s.resource_directory <> "\" is not a directory")) refl,
    )

read_found-validate :
    {S : Type 0} (fields : List (Field S)) (validate : S → String) (IsValid : S → Type 0) (s : S)
    {t : S}
    → ((u : S) → is_empty (validate u) ≡ true → IsValid u)
    → IsValid s
    → (o : Option Node) → read_found fields validate o s ≡ ok t
    → IsValid t
read_found-validate fields validate IsValid s {t} valid before none h =
    let e : s ≡ t = cc in subst (λ u. IsValid u) e before
read_found-validate fields validate IsValid s {t} valid before (some node) h =
    valid t (read_found-some fields validate node s h).1

module _ (host : Surroundings) where
  abbrev IsValid : Config → Type 0
  IsValid c = IsValidClang host.files.is_directory c.clang × IsValidGmock c.gmock

  read-IsValid :
      (path : String) (c : Config) {c' : Config}
      → IsValid c
      → read host.files host.scalars path c ≡ ok c'
      → IsValid c'
  unfolding read
  read-IsValid path c {c'} valid h = go (host.files.document path) refl
    where
      go : (o : Option Document) → host.files.document path ≡ o → IsValid c'
      go none e = cc (rw (e, read) at h)
      go (some document) e =
          let (clang, general, mocking, gmock, fff) =
            read_document-sections host.scalars host.files document c (rw (e, read) at h) in
          (
            read_found-validate (clang_fields host.scalars) (validate_clang host.files.is_directory)
                (IsValidClang host.files.is_directory) c.clang
                (validate_clang-IsValidClang host.files.is_directory) valid.0
                (find_key "Clang" document) clang,
            read_found-validate (gmock_fields host.scalars) validate_gmock IsValidGmock c.gmock
                validate_gmock-IsValidGmock valid.1 (find_key "GMock" document) gmock,
          )

  files-IsValid :
      (paths : List String) (c : Config) {c' : Config}
      → IsValid c
      → read_config_files host paths c ≡ ok c'
      → IsValid c'
  unfolding read_config_files
  files-IsValid [] c {c'} valid h = let e : c ≡ c' = cc in subst (λ x. IsValid x) e valid
  files-IsValid (path ∷ paths) c valid h =
      let (d, e, k) = bind-ok (read host.files host.scalars path c) _ h in
      files-IsValid paths d (read-IsValid path c valid e) k

  environment-IsValid :
      (c : Config) {c' : Config}
      → IsValid c
      → when (not (is_empty host.environment)) (read host.files host.scalars host.environment) c
        ≡ ok c'
      → IsValid c'
  environment-IsValid c {c'} valid h = elim (Bool-cases (is_empty host.environment)) [
    | inl e ↦ let same : c ≡ c' = cc (rw e at h) in subst (λ x. IsValid x) same valid
    | inr e ↦ read-IsValid host.environment c valid (rw e at h)
  ]

  -- Whatever the files and the options say: in a merged configuration the fixture's name has no
  -- underscore, the type of the mocks is one of the three that gmock has, and the resource
  -- directory is none, a directory, or what the option says, which is not looked at here.
  pub merge_config-IsValid :
      (o : Options) {c : Config}
      → merge_config host o ≡ ok c
      → IsValidGmock c.gmock
        × (IsValidClang host.files.is_directory c.clang
            ⊎ ((is_empty o.resource_directory ≡ false)
                × (c.clang.resource_directory ≡ o.resource_directory)))
  unfolding merge_config read_all apply_options has_underscore
  merge_config-IsValid o {c} h =
      let (d, e, k) = bind-ok (read_all host o) _ h in
      let (f, e1, k1) = bind-ok (read_config_files host o.config_files default_config) _ e in
      let valid_default : IsValid default_config =
        (inl refl, record { fixture_name = refl; known_mock_type = refl }) in
      let valid =
        environment-IsValid f (files-IsValid o.config_files default_config valid_default e1) k1 in
      let same : apply_options o d ≡ c = cc in
      (
        subst (λ (x : Config). IsValidGmock x.gmock) same valid.1,
        elim (Bool-cases (is_empty o.resource_directory)) [
          | inl a ↦ inl (
              subst (IsValidClang host.files.is_directory) (ap (λ (x : Config). x.clang) same)
                (rw a valid.0))
          | inr a ↦ inr (a, sym (ap (λ (x : Config). x.clang.resource_directory) same) ∙ rw a refl)
        ],
      )
