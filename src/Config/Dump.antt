-- ===== src/Config/Dump.antt =====
-- Which configurations can be written.
use ccmock.Base.{◌≢◌, ◌≡◌, arith, ok, bind-ok}
use ccmock.Config.Types.{Config, raw, MockingSection}
use ccmock.Config.Yaml.{
  Document, Node, Scalars, write_fields, clang_fields, general_fields, mocking_fields,
  print_backend,
}
use ccmock.Config.Validate.{validate_clang}
use ccmock.Config.Files.{FileSystem, write_document, write_section, no_validation}

module _ (scalars : Scalars) where
  mocking_fields-raw :
      (s : MockingSection) (node : Node)
      → s.backend ≡ raw
      → write_fields (mocking_fields scalars) s ≢ ok node
  unfolding write_fields print_backend
  mocking_fields-raw s node h w = ground arith

  -- A configuration with the raw backend is never written.
  pub write_document-raw :
      (files : FileSystem) (c : Config) (document : Document)
      → c.mocking.backend ≡ raw
      → write_document files scalars c ≢ ok document
  unfolding write_document
  write_document-raw files c document h w =
      let (clang, e1, h1) =
        bind-ok
          (write_section scalars.asserts (clang_fields scalars) (validate_clang files.is_directory)
            c.clang)
          _ w in
      let (general, e2, h2) =
        bind-ok (write_section scalars.asserts (general_fields scalars) no_validation c.general) _
          h1 in
      let (mocking, e3, h3) =
        bind-ok (write_section scalars.asserts (mocking_fields scalars) no_validation c.mocking) _
          h2 in
      mocking_fields-raw c.mocking mocking h e3
