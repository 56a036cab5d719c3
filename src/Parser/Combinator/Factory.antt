-- ===== src/Parser/Combinator/Factory.antt =====
-- src/parser/combinator.rs: `Factory`, `Opaque` and `InputConverter`.
use combine.Prelude.{
  List, [], ◌∷◌, Option, some, none, Result, ok, err, Run, done, panicked, ◌>>=◌, if◌then◌else◌,
}
use combine.Error.Types.{Tracked, tracked, ParseResult, commit_ok, peek_ok, commit_err, peek_err}
use combine.Stream.Core.{Stream}
use combine.Parser.Core.{
  Parser, ParseMode, first_mode, resume_mode, is_first, Step, Outcome, parse_mode, resumable,
}

-- A parser that is made or handed over: the methods that are called, over the type of state that all
-- such parsers have.
pub record Given (S : Stream) (A Q : Type 0) : Type 0 where
  pub parse_lazy : S.Input → Run (Outcome S A)
  pub parse_stream : S.Input → Run (Outcome S A)
  pub parse_first : S.Input → Q → Run (Step S A Q)
  pub parse_partial : S.Input → Q → Run (Step S A Q)
  pub parse_mode_impl : ParseMode → S.Input → Q → Run (Step S A Q)
  pub add_error : Tracked S.Error → Tracked S.Error
  pub add_committed_expected_error : Tracked S.Error → Tracked S.Error

abbrev pub given : {S : Stream} {A : Type 0} (p : Parser S A) → Given S A p.PartialState
unfolding parse_mode
given p = record {
  parse_lazy = p.parse_lazy;
  parse_stream = p.parse_stream;
  parse_first = parse_mode p first_mode;
  parse_partial = parse_mode p resume_mode;
  parse_mode_impl = p.parse_mode_impl;
  add_error = p.reporter.add_error;
  add_committed_expected_error = p.reporter.add_committed_expected_error;
}

-- `Factory` keeps the parser that it made in itself: `self` is an argument, returned beside the result.
module _ {S : Stream} {A Q : Type 0} (make : S.Input → Given S A Q × S.Input) where
  unfoldable pub factory_parser : Option (Given S A Q) → S.Input → Given S A Q × S.Input
  factory_parser (some made) input = (made, input)
  factory_parser none input = make input

  unfoldable pub factory_step :
      Option (Given S A Q) → ParseMode → S.Input → Q → Run (Step S A Q × Option (Given S A Q))
  unfolding factory_parser is_first
  factory_step self mode input st = do
    let made = factory_parser (if is_first mode then none else self) input
    r ← made.0.parse_mode_impl mode made.1 st
    done (r, some made.0)

  unfoldable pub factory_add_error : Option (Given S A Q) → Tracked S.Error → Tracked S.Error
  factory_add_error (some made) e = made.add_error e
  factory_add_error none e = e

-- `Opaque` calls its function with a callback; the function hands parsers to the callback, one after
-- another, and the last result counts. Without any it panics.
module _ {S : Stream} {A Q : Type 0} where
  last_stateless :
      (Given S A Q → S.Input → Run (Outcome S A))
      → List (Given S A Q)
      → Option (ParseResult A S.Error)
      → S.Input
      → Run (Outcome S A)
  last_stateless run [] none input = panicked
  last_stateless run [] (some r) input = done (r, input)
  last_stateless run (p ∷ ps) x input = do
    (r, input') ← run p input
    last_stateless run ps (some r) input'

  last_step :
      (Given S A Q → S.Input → Q → Run (Step S A Q))
      → List (Given S A Q)
      → Option (ParseResult A S.Error)
      → S.Input
      → Q
      → Run (Step S A Q)
  last_step run [] none input st = panicked
  last_step run [] (some r) input st = done (r, input, st)
  last_step run (p ∷ ps) x input st = do
    (r, input', st') ← run p input st
    last_step run ps (some r) input' st'

  report_all :
      (Given S A Q → Tracked S.Error → Tracked S.Error)
      → List (Given S A Q)
      → Tracked S.Error
      → Tracked S.Error
  report_all f [] e = e
  report_all f (p ∷ ps) e = report_all f ps (f p e)

  unfoldable pub opaque_parser : Q → List (Given S A Q) → Parser S A
  unfolding resumable last_stateless last_step report_all is_first
  opaque_parser start ps =
      let base =
        resumable S start
          (λ mode input st.
            last_step (λ p. if is_first mode then p.parse_first else p.parse_partial) ps none input
              st)
          (record {
            add_error = report_all (λ p. p.add_error) ps;
            add_committed_expected_error = report_all (λ p. p.add_committed_expected_error) ps;
            parser_count = 1;
          }) in
      record base {
        parse_stream = last_stateless (λ p. p.parse_stream) ps none;
        parse_lazy = last_stateless (λ p. p.parse_lazy) ps none;
      }

-- `Converter`. The inner input borrows the outer one: `give_back` is the outer input once the inner
-- one has been read.
pub record Converter (S Inner : Stream) : Type 0 where
  pub convert : S.Input → Result Inner.Input S.Error × S.Input
  pub give_back : Inner.Input → S.Input → S.Input
  pub convert_error : S.Input → Inner.Error → S.Error × S.Input

module _ {S Inner : Stream} {A : Type 0} (converter : Converter S Inner) where
  converted_result : {P : Type 0} → S.Input → P → ParseResult A Inner.Error → Step S A P
  converted_result input st (commit_ok x) = (commit_ok x, input, st)
  converted_result input st (peek_ok x) = (peek_ok x, input, st)
  converted_result input st (commit_err e) =
      let (e', input') = converter.convert_error input e in (commit_err e', input', st)
  converted_result input st (peek_err e) =
      let (e', input') = converter.convert_error input e.error in
      (peek_err (record { error = e'; offset = e.offset }), input', st)

  converted_step :
      (p : Parser Inner A)
      → ParseMode
      → Result Inner.Input S.Error × S.Input
      → p.PartialState
      → Run (Step S A p.PartialState)
  unfolding converted_result parse_mode
  converted_step p mode (err e, input) st = done (peek_err (tracked e), input, st)
  converted_step p mode (ok inner, input) st = do
    (r, inner', st') ← parse_mode p mode inner st
    done (converted_result (converter.give_back inner' input) st' r)

  unfoldable pub input_converter : Parser Inner A → Parser S A
  unfolding resumable converted_step
  input_converter p =
      resumable S p.default (λ mode input st. converted_step p mode (converter.convert input) st)
        (record { add_error = λ e. e; add_committed_expected_error = λ e. e; parser_count = 1 })
