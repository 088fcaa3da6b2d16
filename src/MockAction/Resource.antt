-- ===== src/MockAction/Resource.antt =====
-- The resource directory that clang is given.
use mathlib.Core.Path.{subst}
use text.Mathlib.TextPositions.{slice-append_left}
use ccmock.Base.{
  String, true, false, some, List, [], ◌∷◌, ◌++◌, ◌≡◌, arith, inl, inr, ◌<>◌, is_empty, back?,
  Option-cases, Bool-cases, ok, bind-ok, ap, ◌∙◌,
}
use ccmock.Config.{Config}
use ccmock.MockAction.{
  Directories, HeaderSearch, is_digit, detect_in, detect_from, path_list,
  detect_clang_resource_directory, prepare_to_execute_action,
}

-- A directory that may be used: its name ends in a digit and it has an `include` directory.
abbrev pub IsUsable : Directories → String → Type 0
IsUsable dirs path =
    (is_digit (back? path) ≡ true) × (dirs.is_directory (path <> "/include") ≡ ok true)

detect_in-IsUsable :
    (dirs : Directories) (paths : List String) {path : String}
    → detect_in dirs paths ≡ ok (some path)
    → IsUsable dirs path
unfolding detect_in
detect_in-IsUsable dirs [] h = cc (h)
detect_in-IsUsable dirs (p ∷ ps) {path} h = elim (Bool-cases (is_digit (back? p))) [
  | inr other ↦ detect_in-IsUsable dirs ps (rw (detect_in, other) at h)
  | inl digit ↦
      let (b, e, k) =
        bind-ok (dirs.is_directory (p <> "/include")) _ (rw (detect_in, digit) at h) in
      elim (Bool-cases b) [
        | inl sure ↦
            let same : p ≡ path = cc (rw sure at k) in
            subst (IsUsable dirs) same (digit, e ∙ ap ok sure)
        | inr against ↦ detect_in-IsUsable dirs ps (rw against at k)
      ]
]

detect_from-IsUsable :
    (dirs : Directories) (items : List String) {path : String}
    → detect_from dirs items ≡ ok path
    → is_empty path ≡ false
    → IsUsable dirs path
unfolding detect_from
detect_from-IsUsable dirs [] {path} h filled =
    let same : "" ≡ path = cc h in absurd (cc (ap is_empty same ∙ filled))
detect_from-IsUsable dirs (item ∷ items) {path} h filled =
    let (b, e, k) = bind-ok (dirs.is_directory item) _ h in
    elim (Bool-cases b) [
      | inr against ↦ detect_from-IsUsable dirs items (rw against at k) filled
      | inl sure ↦
          let (paths, f, l) = bind-ok (dirs.entries item) _ (rw sure at k) in
          let (found, g, m) = bind-ok (detect_in dirs paths) _ l in
          elim (Option-cases found) [
            | inl missing ↦ detect_from-IsUsable dirs items (rw missing at m) filled
            | inr (other, there) ↦
                let same : other ≡ path = cc (rw there at m) in
                subst (IsUsable dirs) same (detect_in-IsUsable dirs paths (g ∙ ap ok there))
          ]
    ]

-- If preparing the action succeeds, it adds the include directory of one directory behind the
-- system paths, and makes that directory, without the suffix, the resource directory. It is the
-- configured one, if that is not empty; else it is one that the search found, whose name ends in a
-- digit and which has an `include` directory.
pub prepare_to_execute_action_lem :
    (dirs : Directories) (cfg : Config) (search : HeaderSearch) {result : HeaderSearch}
    → prepare_to_execute_action dirs cfg search ≡ ok (some result)
    → (result.system_paths ≡ search.system_paths ++ (result.resource_dir <> "/include") ∷ [])
      × (is_empty cfg.clang.resource_directory ≡ false
          → result.resource_dir ≡ cfg.clang.resource_directory)
      × (is_empty cfg.clang.resource_directory ≡ true → IsUsable dirs result.resource_dir)
unfolding prepare_to_execute_action
prepare_to_execute_action_lem dirs cfg search {result} h =
    elim (Bool-cases (is_empty cfg.clang.resource_directory)) [
      | inr given ↦ ground (
        arith,
        given,
        rw (prepare_to_execute_action, given) at h,
        slice-append_left cfg.clang.resource_directory "/include",
      )
      | inl missing ↦
          let (found, e, k) =
            bind-ok (detect_clang_resource_directory dirs) _
              (rw (prepare_to_execute_action, missing) at h) in
          ground (
            arith,
            missing,
            k,
            slice-append_left found "/include",
            detect_from-IsUsable dirs path_list e,
          )
    ]
