-- ===== src/Parser/Combinator/Recognize.antt =====
-- src/parser/combinator.rs: `Recognize`, which reads again what its parser has read. The loop has fuel.
pub mod Reads
mod Tests
use combine.Prelude.{ℕ, zero, suc, Result, ok, err, Run, done, out_of_fuel, ◌>>=◌, if◌then◌else◌}
use combine.Error.Types.{tracked, ParseResult, commit_ok, peek_ok, commit_err, peek_err}
use combine.Stream.Core.{Stream}
use combine.Parser.Core.{Parser, Step, parse_mode, resumable, reset_then}
use combine.Parser.Repeat.Iter.{Collection}

module _ (S : Stream) {F : Type 0} (c : Collection S.Token F) where
  -- A token is read: `fail` is the kind of error where there is none.
  recognize_token :
      {P : Type 0}
      → (S.Error → ParseResult F S.Error)
      → F
      → P
      → (F → S.Input → Run (Step S F (F × P)))
      → Result S.Token S.StreamErrorFor × S.Input
      → Run (Step S F (F × P))
  recognize_token fail elements st more (ok x, input) = more (c.extend elements x) input
  recognize_token fail elements st more (err e, input) =
      done (fail (S.parse_error.from_error (S.position input) e), input, (elements, st))

  -- `while input.position() != last_position { .. }`; `finish` makes the result of the elements, and
  -- what is left of them.
  unfoldable pub recognize_loop :
      {P : Type 0}
      → ℕ
      → (S.Error → ParseResult F S.Error)
      → (F → ParseResult F S.Error × F)
      → S.Position
      → P
      → F
      → S.Input
      → Run (Step S F (F × P))
  unfolding recognize_token
  recognize_loop zero fail finish last st elements input = out_of_fuel
  recognize_loop (suc fuel) fail finish last st elements input =
      let again =
        recognize_token fail elements st (recognize_loop fuel fail finish last st)
          (S.uncons input) in
      if S.eq_position (S.position input) last
      then done ((finish elements).0, input, ((finish elements).1, st))
      else again

  -- `recognize_result`.
  unfoldable pub recognize_result :
      {A P : Type 0} → ℕ → F → S.Checkpoint → Step S A P → Run (Step S F (F × P))
  unfolding recognize_loop reset_then
  recognize_result fuel elements before (peek_ok _, input, st) =
      reset_then S before input (λ e i. done (commit_err e, i, (elements, st)))
        (recognize_loop fuel (λ e. peek_err (tracked e)) (λ xs. (peek_ok xs, c.empty))
          (S.position input) st elements)
  recognize_result fuel elements before (commit_ok _, input, st) =
      reset_then S before input (λ e i. done (commit_err e, i, (elements, st)))
        (recognize_loop fuel commit_err (λ xs. (commit_ok xs, c.empty)) (S.position input) st
          elements)
  recognize_result fuel elements before (commit_err e, input, st) =
      reset_then S before input (λ e' i. done (commit_err e', i, (elements, st)))
        (recognize_loop fuel commit_err (λ xs. (commit_err e, xs)) (S.position input) st elements)
  recognize_result fuel elements before (peek_err e, input, st) =
      done (peek_err e, input, (elements, st))

module _ {S : Stream} {A F : Type 0} (c : Collection S.Token F) where
  unfoldable pub recognize : ℕ → Parser S A → Parser S F
  unfolding recognize_result parse_mode resumable
  recognize fuel p =
      resumable S (c.empty, p.default)
        (λ mode input st. do
          r ← parse_mode p mode input st.1
          recognize_result S c fuel st.0 (S.checkpoint input) r)
        (record {
          add_error = p.reporter.add_error;
          add_committed_expected_error = λ e. e;
          parser_count = 1;
        })
