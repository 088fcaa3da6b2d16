-- ===== src/Config/Writes.antt =====
-- When `Config::write` of Config.cpp writes a configuration.
use ccmock.Base.{
  [], ◌∷◌, ap, ◌∙◌, bind, false, Outcome, String, Bool, true, not, ◌&&◌, none, some, fault, refl,
  List, ◌≡◌, ◌≢◌, ◌⊎◌, ◌↔◌, arith, is_empty, ok, All, Option,
}
use ccmock.Config.Types.{
  Config, raw, gmock, fff, cmocka, Backend, color_auto, color_never, color_always, ColorMode,
}
use ccmock.Config.Yaml.{
  Document, Node, Value, Field, Scalars, write_fields, clang_fields, general_fields, mocking_fields,
  gmock_fields, fff_fields, cmocka_fields, scalar, print_color_mode, print_backend,
}
use ccmock.Config.Validate.{validate_clang, validate_gmock}
use ccmock.Config.Files.{FileSystem, write_section, no_validation, write_document}
use ccmock.Config.Dump.{write_document-raw}
use ccmock.Config.RoundTrip.{
  AreFaithful, IsInRange, is_valid, bind-known, read_document-write_document,
}

-- The line of the mapping writes something.
abbrev IsWritten : {S : Type 0} → S → Field S → Type 0
IsWritten s f = (o : Option Value) × (f.write s ≡ ok o)

write_fields-ok :
    {S : Type 0} (fields : List (Field S)) (s : S)
    → All (IsWritten s) fields
    → (node : Node) × (write_fields fields s ≡ ok node)
unfolding write_fields
write_fields-ok [] s h = ([], refl)
write_fields-ok (f ∷ fs) s ((o, e), rest) =
    let (node, k) = write_fields-ok fs s rest in
    (
      elim o [ none ↦ node | some v ↦ (f.key, v) ∷ node ],
      ap
            (λ x. bind x (λ o.
              bind (write_fields fs s)
                (λ node. ok (elim o [ none ↦ node | some v ↦ (f.key, v) ∷ node ]))))
            e
          ∙ ap (λ x. bind x (λ node. ok (elim o [ none ↦ node | some v ↦ (f.key, v) ∷ node ]))) k,
    )

write_section-ok :
    {S : Type 0} (asserts : Bool) (fields : List (Field S)) (validate : S → String) (s : S)
    → not (is_empty (validate s)) && asserts ≡ false
    → All (IsWritten s) fields
    → (node : Node) × (write_section asserts fields validate s ≡ ok node)
write_section-ok asserts fields validate s allowed h =
    let (node, e) = write_fields-ok fields s h in (node, rw allowed e)

-- A scalar is written if its codec prints it.
abbrev write_print : Option String → Outcome (Option Value)
write_print o = elim o [ none ↦ fault | some t ↦ ok (some (scalar t)) ]

prints : {o : Option String} {t : String} → o ≡ some t → (v : Option Value) × (write_print o ≡ ok v)
prints {t = t} e = (some (scalar t), ap write_print e)

print_color_mode-some : (m : ColorMode) → (t : String) × (print_color_mode m ≡ some t)
unfolding print_color_mode
print_color_mode-some color_auto = ("auto", refl)
print_color_mode-some color_never = ("never", refl)
print_color_mode-some color_always = ("always", refl)

print_backend-some : (b : Backend) → b ≢ raw → (t : String) × (print_backend b ≡ some t)
unfolding print_backend
print_backend-some gmock h = ("gmock", refl)
print_backend-some fff h = ("fff", refl)
print_backend-some cmocka h = ("cmocka", refl)
print_backend-some raw h = absurd (h refl)

module _ (scalars : Scalars) (laws : AreFaithful scalars) where
  prints_bool : (b : Bool) → (v : Option Value) × (write_print (scalars.bool.print b) ≡ ok v)
  prints_bool b = let (t, e, back) = laws.bool b refl in prints e

  sections-IsWritten :
      (c : Config)
      → IsInRange c
      → c.mocking.backend ≢ raw
      → All (IsWritten c.clang) (clang_fields scalars)
        × All (IsWritten c.general) (general_fields scalars)
        × All (IsWritten c.mocking) (mocking_fields scalars)
        × All (IsWritten c.gmock) (gmock_fields scalars)
        × All (IsWritten c.fff) (fff_fields scalars)
        × All (IsWritten c.cmocka) (cmocka_fields scalars)
  sections-IsWritten c range named =
      let (index, e1, b1) = laws.unsigned c.clang.compile_command_index range.index in
      let (color, e2) = print_color_mode-some c.general.color_mode in
      let (backend, e3) = print_backend-some c.mocking.backend named in
      let (arg, e4, b4) = laws.int c.fff.arg_history_len range.arg_history in
      let (call, e5, b5) = laws.int c.fff.call_history_len range.call_history in
      (
        ((_, refl), ((_, refl), ((_, refl), ((_, refl), (prints e1, tt))))),
        (
          (_, refl),
          (
            (_, refl),
            (
              (_, refl),
              (
                prints e2,
                (
                  prints_bool c.general.quiet,
                  (prints_bool c.general.verbose, (prints_bool c.general.write_date, tt)),
                ),
              ),
            ),
          ),
        ),
        (
          (_, refl),
          (
            prints e3,
            (
              prints_bool c.mocking.mock_builtins,
              (
                prints_bool c.mocking.mock_c_std_lib,
                (
                  prints_bool c.mocking.mock_cxx_std_lib,
                  (prints_bool c.mocking.mock_variadic_functions, tt),
                ),
              ),
            ),
          ),
        ),
        ((_, refl), ((_, refl), ((_, refl), ((_, refl), (prints_bool c.gmock.write_main, tt))))),
        ((_, refl), ((_, refl), (prints e4, (prints e5, tt)))),
        (prints_bool c.cmocka.output_parameters, (prints_bool c.cmocka.strict_mocks, tt)),
      )

  allowed :
      (files : FileSystem) (c : Config)
      → (scalars.asserts ≡ false) ⊎ (is_valid files c ≡ true)
      → (not (is_empty (validate_clang files.is_directory c.clang)) && scalars.asserts ≡ false)
        × (not (is_empty (validate_gmock c.gmock)) && scalars.asserts ≡ false)
  allowed files c h = ground arith

  -- If llvm's scalars print the values of the numbers' types, a configuration in these ranges is
  -- written exactly if its backend is not the raw one and, in a build with `assert`, its sections
  -- are valid.
  pub write_document-ok_iff :
      (files : FileSystem) (c : Config)
      → IsInRange c
      → ((document : Document) × (write_document files scalars c ≡ ok document))
        ↔ ((c.mocking.backend ≢ raw) × ((scalars.asserts ≡ false) ⊎ (is_valid files c ≡ true)))
  unfolding write_document
  write_document-ok_iff files c range = (
    λ (document, e). (
      λ unnamed. write_document-raw scalars files c document unnamed e,
      (read_document-write_document scalars laws files c range e).1,
    ),
    λ (named, h).
        let (w1, w2, w3, w4, w5, w6) = sections-IsWritten c range named in
        let (v1, v4) = allowed files c h in
        let (a1, e1) =
          write_section-ok scalars.asserts (clang_fields scalars)
            (validate_clang files.is_directory) c.clang v1 w1 in
        let (a2, e2) =
          write_section-ok scalars.asserts (general_fields scalars) no_validation c.general refl
            w2 in
        let (a3, e3) =
          write_section-ok scalars.asserts (mocking_fields scalars) no_validation c.mocking refl
            w3 in
        let (a4, e4) =
          write_section-ok scalars.asserts (gmock_fields scalars) validate_gmock c.gmock v4 w4 in
        let (a5, e5) =
          write_section-ok scalars.asserts (fff_fields scalars) no_validation c.fff refl w5 in
        let (a6, e6) =
          write_section-ok scalars.asserts (cmocka_fields scalars) no_validation c.cmocka refl w6 in
        (
          _,
          bind-known _ _ e1 (
              bind-known _ _ e2 (
                bind-known _ _ e3
                  (bind-known _ _ e4 (bind-known _ _ e5 (bind-known _ _ e6 refl))))),
        ),
  )
