-- ===== src/Config/Types.antt =====
-- Config.hpp and the constructors of Config.cpp: the settings, by section. Paths are the texts
-- that `native()` returns.
use ccmock.Base.{ℕ, ◌^◌, String, Bool, true, false, List, [], ltb}

pub data ColorMode : Type 0 where
  color_auto color_never color_always : ColorMode

pub data Backend : Type 0 where
  gmock fff cmocka raw : Backend

-- A signed number; `minus n` is -(n + 1).
pub data HistoryLen : Type 0 where
  plus minus : ℕ → HistoryLen

-- the values of an `unsigned int` and of an `int`
unfoldable pub fits_unsigned : ℕ → Bool
fits_unsigned n = ltb n (2 ^ 32)

unfoldable pub fits_int : HistoryLen → Bool
fits_int (plus n) = ltb n (2 ^ 31)
fits_int (minus n) = ltb n (2 ^ 31)

-- An `unsigned int` is a number that fits; what reads or sets one takes care of that.
pub record ClangSection : Type 0 where
  pub compile_commands : String
  pub extra_arguments : List String
  pub remove_arguments : List String
  pub resource_directory : String
  pub compile_command_index : ℕ

pub record GeneralSection : Type 0 where
  pub base_directory : String
  pub input : String
  pub output : String
  pub color_mode : ColorMode
  pub quiet : Bool
  pub verbose : Bool
  pub write_date : Bool

pub record MockingSection : Type 0 where
  pub blacklist : List String
  pub backend : Backend
  pub mock_builtins : Bool
  pub mock_c_std_lib : Bool
  pub mock_cxx_std_lib : Bool
  pub mock_variadic_functions : Bool

pub record GmockSection : Type 0 where
  pub mock_type : String
  pub class_name : String
  pub global_namespace_name : String
  pub test_fixture_name : String
  pub write_main : Bool

pub record FffSection : Type 0 where
  pub calling_convention : String
  pub gcc_function_attributes : String
  pub arg_history_len : HistoryLen
  pub call_history_len : HistoryLen

pub record CmockaSection : Type 0 where
  pub output_parameters : Bool
  pub strict_mocks : Bool

pub record Config : Type 0 where
  pub clang : ClangSection
  pub general : GeneralSection
  pub mocking : MockingSection
  pub gmock : GmockSection
  pub fff : FffSection
  pub cmocka : CmockaSection

abbrev pub default_clang : ClangSection
default_clang = record {
  compile_commands = "";
  extra_arguments = [];
  remove_arguments = [];
  resource_directory = "";
  compile_command_index = 0;
}

abbrev pub default_cmocka : CmockaSection
default_cmocka = record { output_parameters = true; strict_mocks = true }

abbrev pub default_gmock : GmockSection
default_gmock = record {
  mock_type = "StrictMock";
  class_name = "ccmock_";
  global_namespace_name = "_";
  test_fixture_name = "CCMockFixture";
  write_main = true;
}

abbrev pub default_general : GeneralSection
default_general = record {
  base_directory = "";
  input = "";
  output = "";
  color_mode = color_auto;
  quiet = false;
  verbose = false;
  write_date = true;
}

abbrev pub default_mocking : MockingSection
default_mocking = record {
  blacklist = [];
  backend = gmock;
  mock_builtins = false;
  mock_c_std_lib = false;
  mock_cxx_std_lib = false;
  mock_variadic_functions = true;
}

abbrev pub default_fff : FffSection
default_fff = record {
  calling_convention = "";
  gcc_function_attributes = "";
  arg_history_len = minus 0;
  call_history_len = minus 0;
}

abbrev pub default_config : Config
default_config = record {
  clang = default_clang;
  general = default_general;
  mocking = default_mocking;
  gmock = default_gmock;
  fff = default_fff;
  cmocka = default_cmocka;
}
