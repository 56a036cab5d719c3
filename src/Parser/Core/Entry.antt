-- ===== src/Parser/Core/Entry.antt =====
-- src/parser/mod.rs: `parse`, `parse_with_state` and `parse_stream_partial`, through which a program
-- runs a parser.
use combine.Prelude.{Result, ok, err, Run, done, ◌>>=◌}
use combine.Error.Types.{ParseResult, commit_ok, peek_ok, commit_err, peek_err}
use combine.Stream.Core.{Stream}
use combine.Parser.Core.{Parser, Step, parse_committed, resume_mode}

-- `.into()` and the match on it in `parse` and `parse_with_state`: the commitment is dropped.
unfoldable pub drop_commit : {A E : Type 0} → ParseResult A E → Result A E
drop_commit (commit_ok v) = ok v
drop_commit (peek_ok v) = ok v
drop_commit (commit_err e) = err e
drop_commit (peek_err e) = err e.error

with_input : {A E I : Type 0} → Result A E → I → Result (A × I) E
with_input (ok v) input = ok (v, input)
with_input (err e) input = err e

module _ {S : Stream} {A : Type 0} where
  -- `parse`.
  unfoldable pub parse : Parser S A → S.Input → Run (Result (A × S.Input) S.Error)
  unfolding drop_commit with_input
  parse p input = do (r, input') ← p.parse_stream input; done (with_input (drop_commit r) input')

  -- `parse_stream_partial`.
  unfoldable pub parse_stream_partial :
      (p : Parser S A) → S.Input → p.PartialState → Run (Step S A p.PartialState)
  unfolding parse_committed
  parse_stream_partial p = parse_committed S p.parse_mode_impl p.reporter.add_error resume_mode

  -- `parse_with_state`.
  unfoldable pub parse_with_state :
      (p : Parser S A)
      → S.Input
      → p.PartialState
      → Run (Result A S.Error × S.Input × p.PartialState)
  unfolding parse_stream_partial drop_commit
  parse_with_state p input st = do
    (r, input', st') ← parse_stream_partial p input st
    done (drop_commit r, input', st')
