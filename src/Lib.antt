-- ===== src/Lib.antt =====
-- ccmock writes mock functions for the functions and variables that one C or C++ source file uses
-- and does not define. This library models its C++ code, src/ of the repository.
--
-- The parts, in the order in which a run passes through them:
-- * Main models src/main.cpp: `ccmock_main` reads the configuration files, puts the options over
--   them, dumps the configuration or loads a compilation database, and runs clang's tool with the
--   argument adjusters (Main/Adjusters).
-- * Config models src/Config.hpp and src/Config.cpp. A section is a record; each `mapping` is a list
--   of fields that reading and writing share (Config/Yaml), `validate` is Config/Validate, and
--   `Config::read` and `Config::write` are Config/Files. As llvm does, reading refuses unknown and
--   repeated keys and numbers out of the range of their C++ type; whether llvm's `assert` is on,
--   which stops the writing of an invalid section, is a parameter.
-- * CompilationDatabase models src/CompilationDatabase.hpp and src/CompilationDatabase.cpp.
-- * MockAction models src/MockAction.cpp: the resource directory, and the backend's run on one
--   translation unit, which composes the walk, the file header, the backend and the output.
-- * Visitor models class `ASTVisitor` of src/output/OutputGenerator.cpp and the `addDecl` methods.
--   Its state holds the members that the walk changes; each handler is an action on it.
-- * Contexts models `createContextMap` of src/output/OutputGenerator.hpp and, with Declarations,
--   src/util/Decl.hpp and src/util/Decl.cpp. A `DenseMap` is the list of its entries; the order of
--   a loop over it is a parameter, `Order`.
-- * Writer models src/output/OutputWriter.hpp and src/output/OutputWriter.cpp: a printing policy and
--   the buffer. Generator models what class `OutputGenerator` writes for every backend.
-- * Gmock, Fff, Cmocka and Raw model the backends src/output/GMock.cpp, src/output/FFF.cpp,
--   src/output/CMocka.cpp and src/output/Raw.cpp, one function for each method.
-- * Console models src/util/commandline.hpp, and Visitor/Blacklist src/util/Glob.hpp.
-- * Base holds the shared helpers: native numbers and text, lists, and `Outcome`, the result of a
--   statement, which may end the program (`exit`) or have no defined meaning in C++ (`fault`).
-- * Sample is a small translation unit, on which Witnesses applies the theorems.
--
-- clang and llvm are parameters. Ast holds what ccmock reads of a declaration or a type as a record
-- of what the accessors return, printed texts included; Visitor takes the expressions that clang
-- visits as a list. Glob patterns, the parser and the scalars of YAML, the file system, the
-- environment, the clock and clang's databases are arguments. Contexts/Laws says what is relied on
-- of declaration contexts.
--
-- Walks along the parents of a context take `nesting` of the `Ast` as their fuel, and one more where
-- they count the context itself. `IsNested` says that contexts nest no deeper, so the fuel is enough:
-- the theorems on `createContextMap` and on the GMock and Raw backends need no other bound. Numbers are
-- natural numbers; those of the configuration are checked for their range on reading, and the
-- arithmetic of `size_t` and `unsigned int` is written out modulo a power of two.
--
-- Not modelled: the parsing of the command line and the help text, `diag`, which nothing calls, the
-- tests, and the build and completion scripts. `extern "C"` blocks are contexts without a name, at
-- which the GMock and Raw backends fail or write nothing; the theorems on GMock and on the functions
-- that Raw declares assume that there are none.
pub mod Base
pub mod Ast
pub mod Config
pub mod Console
pub mod Visitor
pub mod Writer
pub mod Contexts
pub mod Declarations
pub mod Generator
pub mod Cmocka
pub mod Fff
pub mod Raw
pub mod Gmock
pub mod Sample
pub mod CompilationDatabase
pub mod Main
pub mod MockAction
pub mod Witnesses
