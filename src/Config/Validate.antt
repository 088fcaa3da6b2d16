-- ===== src/Config/Validate.antt =====
-- Config.cpp: the `validate` functions of the sections. The empty text means that the section is
-- valid.
use Prim.Native.Char.{code}
use ccmock.Base.{
  String, Bool, false, not, ◌||◌, List, [], ◌∷◌, ◌==◌, str_eq, if◌then◌else◌, ◌<>◌, is_empty, any,
}
use ccmock.Config.Types.{ClangSection, GmockSection}

-- What `std::filesystem::is_directory(path, error)` answers.
pub data DirectoryTest : Type 0 where
  directory not_directory : DirectoryTest
  failed : String → DirectoryTest

unfoldable pub validate_clang : (String → DirectoryTest) → ClangSection → String
validate_clang is_directory s =
    if is_empty s.resource_directory then "" else elim (is_directory s.resource_directory) [
      | directory ↦ ""
      | failed message ↦ "Clang.ResourceDirectory: " <> message
      | not_directory ↦
          "Clang.ResourceDirectory: " <> "\"" <> s.resource_directory <> "\" is not a directory"
    ]

-- `str.find('_') != npos`
unfoldable pub has_underscore : String → Bool
has_underscore String.[] = false
has_underscore (String.◌∷◌ c s) = code c == b'_' || has_underscore s

abbrev pub valid_mock_types : List String
valid_mock_types = "NaggyMock" ∷ "NiceMock" ∷ "StrictMock" ∷ []

unfoldable pub validate_gmock : GmockSection → String
unfolding has_underscore
validate_gmock s =
    if has_underscore s.test_fixture_name
    then "\"TestFixtureName\": contains invalid \"_\" character"
    else if not (any (λ value. str_eq value s.mock_type) valid_mock_types)
    then "\"MockType\": invalid value"
    else ""
