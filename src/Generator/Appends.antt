-- ===== src/Generator/Appends.antt =====
-- output/OutputGenerator.cpp: what is written for every backend is put behind the buffer.
use ccmock.Base.{String, List}
use ccmock.Ast.{VarDecl}
use ccmock.Writer.Appends.{Appends, appends}
use ccmock.Generator.Variables.{write_global_variables-concat}
use ccmock.Config.{GeneralSection}
use ccmock.Generator.{
  Host, write_line, write_file_header, write_macro_definitions, write_global_variables,
}

pub Appends-write_macro_definitions : Appends write_macro_definitions
unfolding write_macro_definitions
Appends-write_macro_definitions = search appends

pub Appends-write_global_variables : (ds : List VarDecl) → Appends (write_global_variables ds)
Appends-write_global_variables ds = record { runs = λ w. (_, write_global_variables-concat ds w) }

Appends-write_line : (title value : String) → Appends (write_line title value)
unfolding write_line
Appends-write_line title value = search appends

pub Appends-write_file_header :
    (host : Host) (general : GeneralSection) (name : String)
    → Appends (write_file_header host general name)
unfolding write_file_header
Appends-write_file_header host general name = search (appends, Appends-write_line) depth 20
