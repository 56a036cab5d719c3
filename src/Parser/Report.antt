-- ===== src/Parser/Report.antt =====
-- src/parser/error.rs: the parsers that change what is reported: `Unexpected`, `Message`, `Expected`
-- and `Silent`.
use combine.Prelude.{done, ◌>>=◌}
use combine.Error.Types.{tracked, ParseResult, commit_ok, peek_ok, commit_err, peek_err, Info}
use combine.Error.Traits.{add_message, expected, unexpected}
use combine.Error.ParseResult
use combine.Stream.Core.{Stream}
use combine.Parser.Core.{Parser, parse_mode, resumable, leaf}

unfoldable pub unexpected_any : (S : Stream) {A : Type 0} → Info S.Token S.Range → Parser S A
unfolding leaf unexpected
unexpected_any S message =
    leaf S (λ input. done (peek_err (tracked (S.parse_error.empty (S.position input))), input))
      λ e. record e {
        error = S.parse_error.add (unexpected S.parse_error.stream_error message) e.error;
      }

-- `Message`: added to a committed error at once, to any other by `add_error`.
unfoldable pub add_to_committed : {A E : Type 0} → (E → E) → ParseResult A E → ParseResult A E
add_to_committed f (commit_ok x) = commit_ok x
add_to_committed f (peek_ok x) = peek_ok x
add_to_committed f (commit_err e) = commit_err (f e)
add_to_committed f (peek_err e) = peek_err e

module _ {S : Stream} {A : Type 0} where
  unfoldable pub message : Parser S A → Info S.Token S.Range → Parser S A
  unfolding resumable parse_mode add_to_committed add_message
  message p msg =
      resumable S p.default
        (λ mode input st. do
          (r, input', st') ← parse_mode p mode input st
          done (add_to_committed (add_message S.parse_error msg) r, input', st'))
        (record {
          add_error = λ e.
              let e' = p.reporter.add_error e in
              record e' { error = add_message S.parse_error msg e'.error };
          add_committed_expected_error = p.reporter.add_committed_expected_error;
          parser_count = p.reporter.parser_count;
        })

  unfoldable pub expected_parser : Parser S A → Info S.Token S.Range → Parser S A
  unfolding resumable parse_mode expected
  expected_parser p info = resumable S p.default (parse_mode p) (record {
    add_error = λ e.
        S.parse_error.set_expected e (expected S.parse_error.stream_error info)
          p.reporter.add_error;
    add_committed_expected_error = p.reporter.add_committed_expected_error;
    parser_count = p.reporter.parser_count;
  })

  unfoldable pub silent : Parser S A → Parser S A
  unfolding resumable parse_mode ParseResult.map_err
  silent p =
      resumable S p.default
        (λ mode input st. do
          (r, input', st') ← parse_mode p mode input st
          done (ParseResult.map_err S.parse_error.clear_expected r, input', st'))
        (record {
          add_error = λ e. e;
          add_committed_expected_error = λ e. e;
          parser_count = p.reporter.parser_count;
        })
