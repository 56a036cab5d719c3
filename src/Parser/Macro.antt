-- ===== src/Parser/Macro.antt =====
-- src/lib.rs: the parsers that `parser!` declares. A call makes the parser of the body from the
-- arguments, so that the body is a parser here.
use combine.Prelude.{Run, done, ◌>>=◌}
use combine.Stream.Core.{Stream}
use combine.Parser.Core.{Parser, Reporter, ParseMode, Step, parse_mode, resumable}

module _ {S : Stream} {A : Type 0} (p : Parser S A) where
  -- What the macro passes on; the number of parsers is the default.
  abbrev body_reporter : Reporter S
  body_reporter = record {
    add_error = p.reporter.add_error;
    add_committed_expected_error = p.reporter.add_committed_expected_error;
    parser_count = 1;
  }

  -- `combine_parse_partial!` where no `PartialState` is given: the body's state is made for each call,
  -- and dropped.
  unfoldable pub parse_stateless : ParseMode → S.Input → Unit {0} → Run (Step S A (Unit {0}))
  unfolding parse_mode
  parse_stateless mode input st = do
    (r, input', _) ← parse_mode p mode input p.default
    done (r, input', tt)

  -- `parser!` without and with a `type PartialState`.
  unfoldable pub declared : Parser S A
  unfolding resumable parse_stateless
  declared = resumable S tt parse_stateless body_reporter

  unfoldable pub declared_partial : Parser S A
  unfolding resumable parse_mode
  declared_partial = resumable S p.default (parse_mode p) body_reporter
