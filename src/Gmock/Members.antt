-- ===== src/Gmock/Members.antt =====
-- The members of class `GMock` (output/GMock.hpp) that its methods change.
use ccmock.Base.{Action, Outcome, ok, exit, fault}
use ccmock.Writer.{Writer}
use ccmock.Contexts.{ContextMap}

pub record State : Type 0 where
  pub writer : Writer
  pub context_map : ContextMap

abbrev pub with_writer : State → Outcome Writer → Outcome State
with_writer s (ok w) = ok (record s { writer = w })
with_writer s exit = exit
with_writer s fault = fault

-- a statement that only writes
abbrev pub emit : Action Writer → Action State
emit m s = with_writer s (m s.writer)

-- one that also reads the context map
abbrev pub on_map : (ContextMap → Action Writer) → Action State
on_map f s = emit (f s.context_map) s
