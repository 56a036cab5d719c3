-- ===== src/Parser/Core/Forward.antt =====
-- src/parser/mod.rs: the parsers `&mut P` and `Box<P>`, of `by_ref` and `boxed`. They pass on
-- `parse_first`, `parse_partial` and what is reported; the other methods are those that the trait
-- provides.
use combine.Prelude.{Run, if◌then◌else◌}
use combine.Stream.Core.{Stream}
use combine.Parser.Core.{Parser, ParseMode, first_mode, resume_mode, is_first, Step, resumable}

module _ {S : Stream} {A : Type 0} (p : Parser S A) where
  forward_deref : ParseMode → S.Input → p.PartialState → Run (Step S A p.PartialState)
  unfolding is_first
  forward_deref mode input st =
      if is_first mode
      then p.parse_mode_impl first_mode input st
      else p.parse_mode_impl resume_mode input st

  unfoldable pub boxed : Parser S A
  unfolding resumable forward_deref
  boxed = resumable S p.default forward_deref p.reporter
