-- ===== src/Generator.antt =====
-- output/OutputGenerator.cpp, class `OutputGenerator`: what every backend writes, and where the
-- text goes. The clock, the file system and the version macros are parameters.
pub mod Appends
pub mod Variables
use ccmock.Base.{
  ℕ, String, Bool, true, false, not, Option, none, some, List, [], ◌∷◌, if◌then◌else◌, ◌<>◌,
  is_empty, Action, Outcome, ok, exit, bind, ◌>>◌, skip, when, for_each,
}
use ccmock.Ast.{Policy, QualType, VarDecl}
use ccmock.Config.{GeneralSection}
use ccmock.Writer.{Writer, write, write_type, write_fully_qualified_name, flush, points_to_function}

-- What the generator asks of its surroundings. `now` is the time that `strftime` formats, `relative`
-- is `std::filesystem::relative`, and `opens` says whether a file can be opened for writing.
pub record Host : Type 0 where
  pub version : String
  pub website : String
  pub now : String
  pub relative : String → String → String
  pub opens : String → Bool

unfoldable pub write_line : String → String → Action Writer
write_line title value = do write title; write value; write "\n"

unfoldable pub write_file_header : Host → GeneralSection → String → Action Writer
unfolding write_line
write_file_header host general name = do
  write (
      "/*\n" <> " * Generated by ccmock " <> host.version <> " <" <> host.website <> ">\n"
      <> " *\n")
  when general.write_date (write_line " *    Date        : " host.now)
  let input = host.relative general.input general.base_directory
  let relative_output = host.relative general.output general.base_directory
  let output = if is_empty relative_output then "-" else relative_output
  write_line " *    Backend     : " name
  write_line " *    Directory   : " general.base_directory
  write_line " *    Input       : " input
  write_line " *    Output      : " output
  write " */\n\n"

unfoldable pub write_macro_definitions : Action Writer
write_macro_definitions =
    write
      "#ifdef __cplusplus\n#define CCMOCK_LINKAGE extern \"C\"\n#else\n#define CCMOCK_LINKAGE\n#endif\n\n"

-- `getPrintingPolicy().SuppressTagKeyword = value`
unfoldable pub set_suppress_tag_keyword : Bool → Action Writer
set_suppress_tag_keyword value w =
    ok (record w { policy = record (w.policy) { suppress_tag_keyword = value } })

-- The loop's body: a pointer or reference to a function, an object of a class, or anything else.
unfoldable pub write_global_variable : VarDecl → Action Writer
unfolding write_type write_fully_qualified_name points_to_function
write_global_variable d =
    if points_to_function d.type
    then (λ w. (do write_type d.type (d.qualified_name_in w.policy); write ";\n") w)
    else when (elim d.record_decl [ none ↦ true | some r ↦ r.has_default_constructor ])
        (do
          write_type d.type ""
          write " "
          write_fully_qualified_name d.qualified_name
          write ";\n")

unfoldable pub write_global_variables : List VarDecl → Action Writer
unfolding write_global_variable set_suppress_tag_keyword
write_global_variables ds w =
    let saved_value = w.policy.suppress_tag_keyword in
    (do
      set_suppress_tag_keyword false
      for_each ds write_global_variable
      when (elim ds [ [] ↦ false | d ∷ rest ↦ true ]) (write "\n")
      set_suppress_tag_keyword saved_value)
      w

-- Where the text went: to standard output, or to the file of that name.
pub data Sink : Type 0 where
  standard_output : String → Sink
  file : String → String → Sink

unfoldable pub write_sink : Host → GeneralSection → Writer → Outcome Sink
unfolding flush
write_sink host general w =
    if is_empty general.output
    then ok (standard_output (flush w).0)
    else if not (host.opens general.output)
    then exit
    else ok (file general.output (flush w).0)

-- `HandleTranslationUnit`, behind the walk: `run` is the backend's.
unfoldable pub handle_translation_unit :
    Host → GeneralSection → String → Action Writer → Writer → Outcome Sink
unfolding write_file_header write_sink
handle_translation_unit host general name run w =
    bind ((do write_file_header host general name; run) w) (write_sink host general)
