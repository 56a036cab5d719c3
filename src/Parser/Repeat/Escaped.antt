-- ===== src/Parser/Repeat/Escaped.antt =====
-- src/parser/repeat.rs: `Escaped`. The loop has fuel; the `PartialEq` of tokens is the argument `eq`.
use combine.Prelude.{ℕ, zero, suc, Bool, ok, Run, done, out_of_fuel, ◌>>=◌, if◌then◌else◌}
use combine.Error.Types.{Commit, commit, peek, commit_ok, peek_ok, commit_err, peek_err, token}
use combine.Error.ParseResult.{from}
use combine.Stream.Core.{Stream}
use combine.Stream.Ops.{uncons}
use combine.Parser.Core.{Parser, first_mode, Step, Outcome, leaf, reset_then}
use combine.Parser.Token.{expect}

module _ {S : Stream} (eq : S.Token → S.Token → Bool) {A B : Type 0} (p : Parser S A)
    (escape : S.Token) (escape_parser : Parser S B) where
  -- No escape: the input goes back, and the loop ends.
  unfoldable pub escaped_end :
      Commit (Unit {0}) → S.Checkpoint → S.Input → Run (Outcome S (Unit {0}))
  unfolding reset_then from
  escaped_end committed before input =
      reset_then S before input (λ e i. done (commit_err e, i))
        λ i. done (from (ok (tt, committed)), i)

  -- What the escaped parser gave; an error of it is committed.
  unfoldable pub escape_result :
      Commit (Unit {0})
      → (Commit (Unit {0}) → S.Input → Run (Outcome S (Unit {0})))
      → Step S B escape_parser.PartialState
      → Run (Outcome S (Unit {0}))
  escape_result committed more (peek_ok _, input, _) = more committed input
  escape_result committed more (commit_ok _, input, _) = more (commit tt) input
  escape_result committed more (commit_err e, input, _) = done (commit_err e, input)
  escape_result committed more (peek_err e, input, _) = done (commit_err e.error, input)

  -- The parser did not start: the next token may be the escape.
  unfoldable pub escape_token :
      Commit (Unit {0})
      → S.Checkpoint
      → (Commit (Unit {0}) → S.Input → Run (Outcome S (Unit {0})))
      → Outcome S S.Token
      → Run (Outcome S (Unit {0}))
  unfolding escaped_end escape_result
  escape_token committed before more (commit_ok t, input) =
      let go : Run (Outcome S (Unit {0})) = do
        r ← escape_parser.parse_committed_mode first_mode input escape_parser.default
        escape_result committed more r
      in if eq t escape then go else escaped_end committed before input
  escape_token committed before more (peek_ok t, input) =
      let go : Run (Outcome S (Unit {0})) = do
        r ← escape_parser.parse_committed_mode first_mode input escape_parser.default
        escape_result committed more r
      in if eq t escape then go else escaped_end committed before input
  escape_token committed before more (commit_err e, input) = done (commit_err e, input)
  escape_token committed before more (peek_err _, input) = escaped_end committed before input

  unfoldable pub escaped_round :
      Commit (Unit {0})
      → (Commit (Unit {0}) → S.Input → Run (Outcome S (Unit {0})))
      → Outcome S A
      → Run (Outcome S (Unit {0}))
  unfolding escape_token uncons
  escaped_round committed more (peek_ok _, input) = more committed input
  escaped_round committed more (commit_ok _, input) = more (commit tt) input
  escaped_round committed more (commit_err e, input) = done (commit_err e, input)
  escaped_round committed more (peek_err _, input) =
      escape_token committed (S.checkpoint input) more (uncons S input)

  unfoldable pub escaped_loop : ℕ → Commit (Unit {0}) → S.Input → Run (Outcome S (Unit {0}))
  unfolding escaped_round
  escaped_loop zero committed input = out_of_fuel
  escaped_loop (suc fuel) committed input = do
    r ← p.parse_lazy input
    escaped_round committed (escaped_loop fuel) r

  unfoldable pub escaped : ℕ → Parser S (Unit {0})
  unfolding leaf escaped_loop expect
  escaped fuel =
      leaf S (escaped_loop fuel (peek tt)) λ e. expect S (token escape) (p.reporter.add_error e)
