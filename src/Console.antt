-- ===== src/Console.antt =====
-- util/commandline.hpp: the messages on standard error, with the colour changes that the stream
-- is asked for.
use ccmock.Base.{String, List, [], ◌∷◌, ◌++◌}

pub data Color : Type 0 where
  black magenta red : Color

pub data Item : Type 0 where
  change_color : Color → Item
  say : String → Item
  reset_color : Item

abbrev pub Log : Type 0
Log = List Item

unfoldable pub write : Log → Color → String → Log
write log color s = log ++ (change_color color ∷ say s ∷ reset_color ∷ [])

unfoldable pub info : Log → Log
unfolding write
info log = write log black "info: "

unfoldable pub warning : Log → Log
unfolding write
warning log = write log magenta "warning: "

unfoldable pub error : Log → Log
unfolding write
error log = write log red "error: "
