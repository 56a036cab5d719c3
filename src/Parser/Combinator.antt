-- ===== src/Parser/Combinator.antt =====
-- src/parser/combinator.rs and src/parser/error.rs: the parsers that change the result, the error
-- or the commitment of one parser.
pub mod Boxed
pub mod Tests
pub mod Input
pub mod Wrap
pub mod Factory
pub mod Hidden
pub mod Recognize
use combine.Prelude.{◌&&◌, Result, ok, err, Run, done, ◌>>=◌, if◌then◌else◌}
use combine.Error.Types.{tracked, ParseResult, commit_ok, peek_ok, commit_err, peek_err}
use combine.Error.ParseResult
use combine.Stream.Core.{Stream}
use combine.Stream.Ops.{input_at_eof}
use combine.Parser.Core.{
  Parser, Reporter, ParseMode, Step, Outcome, parse_mode, resumable, leaf, reset_then,
}

-- A reporter that adds no expectations: of `NotFollowedBy` and `Silent`.
quiet : {S : Stream} → Reporter S → Reporter S
quiet r = record r { add_error = λ e. e; add_committed_expected_error = λ e. e }

module _ (S : Stream) {A : Type 0} where
  -- What `NotFollowedBy` returns once the input is reset.
  unfoldable pub negate : ParseResult A S.Error → S.Input → ParseResult (Unit {0}) S.Error
  negate (commit_ok _) input = peek_err (tracked (S.parse_error.empty (S.position input)))
  negate (peek_ok _) input = peek_err (tracked (S.parse_error.empty (S.position input)))
  negate (commit_err _) input = peek_ok tt
  negate (peek_err _) input = peek_ok tt

  -- `Try`: a committed error becomes one that committed to nothing, unless more input may come.
  unfoldable pub uncommit : S.Input → ParseResult A S.Error → ParseResult A S.Error
  uncommit input (commit_err e) =
      if S.is_partial input && S.parse_error.is_unexpected_end_of_input e
      then commit_err e
      else peek_err (tracked e)
  uncommit input (commit_ok x) = commit_ok x
  uncommit input (peek_ok x) = peek_ok x
  uncommit input (peek_err e) = peek_err e

-- What `LookAhead` returns once the input is reset: `ctry!(result)`, then `PeekOk`.
unfoldable pub peeked : {A E : Type 0} → ParseResult A E → ParseResult A E
peeked (commit_ok x) = peek_ok x
peeked (peek_ok x) = peek_ok x
peeked (commit_err e) = commit_err e
peeked (peek_err e) = peek_err e

module _ {S : Stream} {A : Type 0} where
  unfoldable pub not_followed_by : Parser S A → Parser S (Unit {0})
  unfolding resumable quiet negate reset_then parse_mode
  not_followed_by p =
      resumable S p.default
        (λ mode input st. do
          (r, input', st') ← parse_mode p mode input st
          done (
              reset_then S (S.checkpoint input) input' (λ e i. (commit_err e, i, st'))
                λ i. (negate S r i, i, st')))
        (quiet p.reporter)

  attempt_step :
      (p : Parser S A) → ParseMode → S.Input → p.PartialState → Run (Step S A p.PartialState)
  unfolding uncommit
  attempt_step p mode input st = do
    (r, input', st') ← p.parse_committed_mode mode input st
    done (uncommit S input' r, input', st')

  -- `Try` replaces `parse_committed_mode` by `parse_mode`, and `parse_stream` by `parse_lazy`.
  unfoldable pub attempt : Parser S A → Parser S A
  unfolding resumable attempt_step parse_mode
  attempt p =
      let base = resumable S p.default (attempt_step p) p.reporter in
      record base { parse_committed_mode = parse_mode base; parse_stream = base.parse_lazy }

  unfoldable pub look_ahead : Parser S A → Parser S A
  unfolding leaf peeked reset_then
  look_ahead p =
      let base =
        leaf S
          (λ input. do
            (r, input') ← p.parse_lazy input
            done (
                reset_then S (S.checkpoint input) input' (λ e i. (commit_err e, i))
                  λ i. (peeked r, i)))
          p.reporter.add_error in
      record base { reporter = p.reporter }

-- The closure that `map` and its like pass, applied to the result of a step.
abbrev map_step :
    {A B E I P : Type 0}
    → (ParseResult A E → I → ParseResult B E)
    → Run (ParseResult A E × I × P)
    → Run (ParseResult B E × I × P)
map_step f m = do (r, input, st) ← m; done (f r input, input, st)

-- `FlatMap`: the function's error takes the commitment of the value that it was given.
unfoldable pub flat_result : {A B E : Type 0} → (A → Result B E) → ParseResult A E → ParseResult B E
flat_result f (peek_ok o) = elim (f o) [ ok x ↦ peek_ok x | err e ↦ peek_err (tracked e) ]
flat_result f (commit_ok o) = elim (f o) [ ok x ↦ commit_ok x | err e ↦ commit_err e ]
flat_result f (peek_err e) = peek_err e
flat_result f (commit_err e) = commit_err e

-- `MapInput`: the function is given the input too, and may change it, as `&mut Input` lets it.
map_input_step :
    {A B E I P : Type 0} → (A → I → B × I) → ParseResult A E × I × P → ParseResult B E × I × P
map_input_step f (commit_ok x, input, st) = let (y, input') = f x input in (commit_ok y, input', st)
map_input_step f (peek_ok x, input, st) = let (y, input') = f x input in (peek_ok y, input', st)
map_input_step f (commit_err e, input, st) = (commit_err e, input, st)
map_input_step f (peek_err e, input, st) = (peek_err e, input, st)

module _ {S : Stream} {A B : Type 0} where
  unfoldable pub map : Parser S A → (A → B) → Parser S B
  unfolding resumable parse_mode ParseResult.map
  map p f =
      resumable S p.default
        (λ mode input st. map_step (λ r _. ParseResult.map f r) (parse_mode p mode input st))
        p.reporter

  unfoldable pub map_input : Parser S A → (A → S.Input → B × S.Input) → Parser S B
  unfolding resumable parse_mode map_input_step
  map_input p f =
      resumable S p.default
        (λ mode input st. do r ← parse_mode p mode input st; done (map_input_step f r)) p.reporter

  unfoldable pub flat_map : Parser S A → (A → Result B S.Error) → Parser S B
  unfolding resumable parse_mode flat_result
  flat_map p f =
      resumable S p.default
        (λ mode input st. map_step (λ r _. flat_result f r) (parse_mode p mode input st)) p.reporter

module _ (S : Stream) {B : Type 0} where
  -- `AndThen`, after the parser gave a value and the function an error: a partial input that has
  -- ended is taken back to its start, and the error is committed.
  refuse_peek : S.Checkpoint → S.Error → S.Input → Outcome S B
  unfolding reset_then
  refuse_peek before e input =
      let at_eof = input_at_eof S input in
      let waits =
        reset_then S before at_eof.1 (λ e' i. (commit_err e', i)) (λ i. (commit_err e, i)) in
      if S.is_partial input
      then (if at_eof.0 then waits else (peek_err (tracked e), at_eof.1))
      else (peek_err (tracked e), input)

  refuse_commit : S.Checkpoint → S.Error → S.Input → Outcome S B
  unfolding reset_then
  refuse_commit before e input =
      let at_eof = input_at_eof S input in
      let waits =
        reset_then S before at_eof.1 (λ e' i. (commit_err e', i)) (λ i. (commit_err e, i)) in
      if S.is_partial input
      then (if at_eof.0 then waits else (commit_err e, at_eof.1))
      else (commit_err e, input)

  and_then_result :
      {A : Type 0}
      → (A → Result B S.StreamErrorFor)
      → S.Input
      → ParseResult A S.Error
      → S.Input
      → Outcome S B
  unfolding refuse_peek refuse_commit
  and_then_result f before (peek_ok o) input = elim (f o) [
    | ok x ↦ (peek_ok x, input)
    | err e ↦
        refuse_peek (S.checkpoint before) (S.parse_error.from_error (S.position before) e) input
  ]
  and_then_result f before (commit_ok o) input = elim (f o) [
    | ok x ↦ (commit_ok x, input)
    | err e ↦
        refuse_commit (S.checkpoint before) (S.parse_error.from_error (S.position before) e) input
  ]
  and_then_result f before (peek_err e) input = (peek_err e, input)
  and_then_result f before (commit_err e) input = (commit_err e, input)

module _ {S : Stream} {A B : Type 0} where
  unfoldable pub and_then : Parser S A → (A → Result B S.StreamErrorFor) → Parser S B
  unfolding resumable parse_mode and_then_result input_at_eof
  and_then p f =
      resumable S p.default
        (λ mode input st. do
          (r, input', st') ← parse_mode p mode input st
          let out = and_then_result S f input r input'
          done (out.0, out.1, st'))
        p.reporter

module _ {S : Stream} {A : Type 0} where
  unfoldable pub no_partial : Parser S A → Parser S A
  unfolding resumable
  no_partial p =
      let base =
        resumable S {P = Unit {0}} tt
          (λ mode input st. do (r, input') ← p.parse_lazy input; done (r, input', tt)) p.reporter in
      record base { parse_lazy = p.parse_lazy }

  unfoldable pub ignore : Parser S A → Parser S (Unit {0})
  unfolding resumable parse_mode ParseResult.map
  ignore p =
      let base =
        resumable S p.default
          (λ mode input st.
            map_step (λ r _. ParseResult.map (λ _. tt) r) (parse_mode p mode input st))
          p.reporter in
      record base {
        parse_lazy = λ input. do
          (r, input') ← p.parse_lazy input
          done (ParseResult.map (λ _. tt) r, input');
      }
