-- ===== src/Main/Dump.antt =====
-- `--dump-config` with the raw backend.
use ccmock.Base.{
  true, false, ◌≢◌, ◌<◌, some, ◌≡◌, arith, inl, inr, leb, is_empty, Bool-cases, ok, bind-ok,
}
use ccmock.Config.{Config, raw}
use ccmock.Config.Files
use ccmock.Config.Files.{write_document}
use ccmock.Config.Dump.{write_document-raw}
use ccmock.Main.{
  Options, Surroundings, merge_config, read_all, apply_options, ccmock_main, Exit, dump,
  after_merge,
}

module _ (host : Surroundings) (o : Options) where
  merge_config-backend :
      {c : Config} → merge_config host o ≡ ok c → o.backend ≡ some raw → c.mocking.backend ≡ raw
  unfolding merge_config apply_options
  merge_config-backend h b = let (d, e, k) = bind-ok (read_all host o) _ h in ground (arith, k)

  dump-raw : (c : Config) (e : Exit) → c.mocking.backend ≡ raw → dump host c ≢ ok e
  unfolding dump Files.write
  dump-raw c e r h = elim (Bool-cases (is_empty c.general.output)) [
    | inl none' ↦
        let (document, w, k) =
          bind-ok (write_document host.files host.scalars c) _ (rw none' at h) in
        write_document-raw host.scalars host.files c document r w
    | inr some' ↦ elim (Bool-cases (host.files.opens c.general.output)) [
      | inl opens ↦
          let (document, w, k) =
            bind-ok (write_document host.files host.scalars c) _ (rw opens at (rw some' at h)) in
          write_document-raw host.scalars host.files c document r w
      | inr shut ↦ cc (rw shut at (rw some' at h))
    ]
  ]

  after_merge-dump :
      (c : Config) {e : Exit}
      → o.dump_config ≡ true
      → after_merge host o c ≡ ok e
      → dump host c ≡ ok e
  unfolding after_merge
  after_merge-dump c asked h = ground arith

  -- If the command line names the raw backend and asks for the configuration, the program never
  -- ends normally: no configuration is printed.
  pub dump_config-raw :
      1 < o.argument_count
      → o.dump_config ≡ true
      → o.backend ≡ some raw
      → (e : Exit) → ccmock_main host o ≢ ok e
  unfolding ccmock_main
  dump_config-raw many asked back e h =
      let given : leb o.argument_count 1 ≡ false = ground arith in
      let (c, merged, k) = bind-ok (merge_config host o) _ (rw given at h) in
      dump-raw c e (merge_config-backend merged back) (after_merge-dump c asked k)
