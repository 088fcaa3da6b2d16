-- ===== src/Gmock/Passes.antt =====
-- output/GMock.hpp: the statements of class `GMock`, which may index the context map.
use ccmock.Base.{ℕ, true, List, ◌≡◌, refl, ap, mem_nat, Action, ◌>>◌, for_each}
use ccmock.Writer.{Writer, append}
use ccmock.Writer.Appends.{Appends}
use ccmock.Writer.Shows.{Puts, Puts-seq, Puts-for_each}
use ccmock.Contexts.{ContextMap}
use ccmock.Gmock.Members.{State, emit, on_map, with_writer}

abbrev pub writer_of : State → Writer
writer_of s = s.writer

-- The statement succeeds, keeps what holds of the context map, and only puts text behind the
-- buffer.
abbrev pub Passes : (ContextMap → Type 0) → Action State → Type 0
Passes I a = Puts writer_of (λ s. I s.context_map) a

module _ (I : ContextMap → Type 0) where
  pub Passes-emit : {m : Action Writer} → Appends m → Passes I (emit m)
  Passes-emit a = record {
    puts = λ s h.
        let (text, e) = a.runs s.writer in
        (record s { writer = append text (s.writer) }, text, ap (with_writer s) e, h, refl);
  }

  pub Passes-on_map :
      {f : ContextMap → Action Writer} → ((m : ContextMap) → Appends (f m)) → Passes I (on_map f)
  Passes-on_map h = record { puts = λ s k. (Passes-emit (h s.context_map)).puts s k }

  pub Passes-seq : {a b : Action State} → Passes I a → Passes I b → Passes I (a >> b)
  Passes-seq p q = Puts-seq writer_of (λ s. I s.context_map) p q

  pub Passes-for_each :
      (xs : List ℕ) (body : ℕ → Action State)
      → ((x : ℕ) → mem_nat x xs ≡ true → Passes I (body x))
      → Passes I (for_each xs body)
  Passes-for_each xs body h = Puts-for_each writer_of (λ s. I s.context_map) xs body h
