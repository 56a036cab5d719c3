-- ===== src/Parser/Core.antt =====
-- src/parser/mod.rs: the traits `Parser` and `ParseMode`. A parser is a record of its methods;
-- `leaf` and `resumable` fill in the methods that the trait provides, for a parser that implements
-- `parse_lazy` and for one that implements `parse_mode_impl` through the macro `parse_mode!`.
-- `&mut Input` and `&mut PartialState` are arguments, returned beside the result.
pub mod Entry
pub mod Forward
pub mod Fresh
use combine.Prelude.{Bool, true, false, Result, ok, err, Run, done, ◌>>=◌, if◌then◌else◌}
use combine.Error.Types.{
  ErrorOffset, Tracked, ParseResult, commit_ok, peek_ok, commit_err, peek_err, token,
}
use combine.Error.Traits.{add_unexpected}
use combine.Stream.Core.{Stream}

-- `FirstMode` and `PartialMode { first }`.
pub data ParseMode : Type 0 where
  first_mode : ParseMode
  partial_mode : Bool → ParseMode

unfoldable pub is_first : ParseMode → Bool
is_first first_mode = true
is_first (partial_mode first) = first

unfoldable pub set_first : ParseMode → ParseMode
set_first first_mode = first_mode
set_first (partial_mode _) = partial_mode true

-- `PartialMode::default()`.
abbrev pub resume_mode : ParseMode
resume_mode = partial_mode false

-- The result of a parse and the input that it leaves.
abbrev pub Outcome : Stream → Type 0 → Type 0
Outcome S A = ParseResult A S.Error × S.Input

-- The same with the state to resume from.
abbrev pub Step : Stream → Type 0 → Type 0 → Type 0
Step S A P = ParseResult A S.Error × S.Input × P

-- What a parser adds to an error that passes it.
pub record Reporter (S : Stream) : Type 0 where
  pub add_error : Tracked S.Error → Tracked S.Error
  pub add_committed_expected_error : Tracked S.Error → Tracked S.Error
  pub parser_count : ErrorOffset

pub record Parser (S : Stream) (A : Type 0) : Type 1 where
  pub PartialState : Type 0
  pub default : PartialState
  pub parse_lazy : S.Input → Run (Outcome S A)
  pub parse_mode_impl : ParseMode → S.Input → PartialState → Run (Step S A PartialState)
  pub parse_committed_mode : ParseMode → S.Input → PartialState → Run (Step S A PartialState)
  pub parse_stream : S.Input → Run (Outcome S A)
  pub reporter : Reporter S

-- What follows `ctry!(input.reset(before).committed())`: `k` goes on, `fail` returns the error.
after_reset : {E I X : Type 0} → (E → I → X) → (I → X) → Result (Unit {0}) E × I → X
after_reset fail k (ok _, input) = k input
after_reset fail k (err e, input) = fail e input

unfoldable pub reset_then :
    (S : Stream) {X : Type 0} → S.Checkpoint → S.Input → (S.Error → S.Input → X) → (S.Input → X) → X
unfolding after_reset
reset_then S before input fail k = after_reset fail k (S.reset before input)

unfoldable pub unexpected_next : (S : Stream) → Tracked S.Error → S.Token → Tracked S.Error
unfolding add_unexpected
unexpected_next S e t = record e { error = add_unexpected S.parse_error (token t) e.error }

module _ (S : Stream) {A : Type 0} where
  -- The next token is reported as unexpected where there is one, and the parser adds its errors.
  unfoldable pub report_next :
      S.Checkpoint
      → (Tracked S.Error → Tracked S.Error)
      → Tracked S.Error
      → Result S.Token S.StreamErrorFor × S.Input
      → Outcome S A
  unfolding reset_then unexpected_next
  report_next before add_error e (ok t, input) =
      reset_then S before input (λ e' i. (commit_err e', i))
        λ i. (peek_err (add_error (unexpected_next S e t)), i)
  report_next before add_error e (err _, input) = (peek_err (add_error e), input)

  -- What `parse_stream` and `parse_committed` do with a `PeekErr`, from the start of the parser.
  unfoldable pub settle_peek :
      S.Checkpoint → (Tracked S.Error → Tracked S.Error) → Tracked S.Error → S.Input → Outcome S A
  unfolding reset_then report_next
  settle_peek before add_error e input =
      reset_then S before input (λ e' i. (commit_err e', i))
        λ at_start. report_next before add_error e (S.uncons at_start)

  unfoldable pub settle :
      S.Checkpoint → (Tracked S.Error → Tracked S.Error) → Outcome S A → Outcome S A
  unfolding settle_peek
  settle before add_error (peek_err e, input) = settle_peek before add_error e input
  settle before add_error (commit_ok x, input) = (commit_ok x, input)
  settle before add_error (peek_ok x, input) = (peek_ok x, input)
  settle before add_error (commit_err e, input) = (commit_err e, input)

  -- `parse_lazy` of a resumable parser on a partial input: where the parser fails after it committed
  -- the input is taken back to its start, since the state is lost.
  unfoldable pub settle_lazy : S.Checkpoint → Outcome S A → Outcome S A
  unfolding reset_then
  settle_lazy before (commit_err e, input) =
      reset_then S before input (λ e' i. (commit_err e', i)) (λ i. (commit_err e, i))
  settle_lazy before (commit_ok x, input) = (commit_ok x, input)
  settle_lazy before (peek_ok x, input) = (peek_ok x, input)
  settle_lazy before (peek_err e, input) = (peek_err e, input)

-- Runs a step from a fresh state and drops the state.
abbrev pub drop_state : (S : Stream) {A P : Type 0} → Step S A P → Outcome S A
drop_state S (r, input, st) = (r, input)

-- `parse_committed`: a step, and what `settle` does to its result.
unfoldable pub parse_committed :
    (S : Stream) {A P : Type 0}
    → (ParseMode → S.Input → P → Run (Step S A P))
    → (Tracked S.Error → Tracked S.Error)
    → ParseMode
    → S.Input
    → P
    → Run (Step S A P)
unfolding settle
parse_committed S step add_error mode input st = do
  (r, input', st') ← step mode input st
  let settled = settle S (S.checkpoint input) add_error (r, input')
  done (settled.0, settled.1, st')

-- `parse_committed_mode` as the trait provides it: either `FirstMode` or `PartialMode::default()`.
unfoldable pub parse_committed_mode :
    (S : Stream) {A P : Type 0}
    → (ParseMode → S.Input → P → Run (Step S A P))
    → (Tracked S.Error → Tracked S.Error)
    → ParseMode
    → S.Input
    → P
    → Run (Step S A P)
unfolding parse_committed is_first
parse_committed_mode S step add_error mode =
    parse_committed S step add_error (if is_first mode then first_mode else resume_mode)

-- The parser with the given `parse_lazy` and no state of its own.
unfoldable pub leaf :
    (S : Stream) {A : Type 0}
    → (S.Input → Run (Outcome S A))
    → (Tracked S.Error → Tracked S.Error)
    → Parser S A
unfolding parse_committed_mode
leaf S {A} lazy add_error = record {
  PartialState = Unit {0};
  default = tt;
  parse_lazy = lazy;
  parse_mode_impl = step;
  parse_committed_mode = parse_committed_mode S step add_error;
  parse_stream = λ input. do
    r ← lazy input
    done (settle S (S.checkpoint input) add_error r);
  reporter = record {
    add_error = add_error;
    add_committed_expected_error = λ e. e;
    parser_count = 1;
  };
}
  where
    step : ParseMode → S.Input → Unit {0} → Run (Step S A (Unit {0}))
    step mode input st = do (r, input') ← lazy input; done (r, input', tt)

-- The parser with the given `parse_mode_impl`, state and reporter.
unfoldable pub resumable :
    (S : Stream) {A P : Type 0}
    → P
    → (ParseMode → S.Input → P → Run (Step S A P))
    → Reporter S
    → Parser S A
unfolding parse_committed_mode settle_lazy
resumable S {A} {P} start step reporter = record {
  PartialState = P;
  default = start;
  parse_lazy = λ input. do
    r ← step first_mode input start
    done (
        if S.is_partial input
        then settle_lazy S (S.checkpoint input) (drop_state S r)
        else drop_state S r);
  parse_mode_impl = step;
  parse_committed_mode = parse_committed_mode S step reporter.add_error;
  parse_stream = λ input. do
    r ← step first_mode input start
    done (settle S (S.checkpoint input) reporter.add_error (drop_state S r));
  reporter = reporter;
}

-- A leaf's reporter that adds nothing, and the forwarding of all three methods.
abbrev pub silent_error : {E : Type 0} → Tracked E → Tracked E
silent_error e = e

module _ {S : Stream} {A : Type 0} where
  -- `parse_mode`: a partial mode whose `first` is set runs as the first mode.
  unfoldable pub parse_mode :
      (p : Parser S A) → ParseMode → S.Input → p.PartialState → Run (Step S A p.PartialState)
  parse_mode p (partial_mode true) input st = p.parse_mode_impl first_mode input st
  parse_mode p (partial_mode false) input st = p.parse_mode_impl (partial_mode false) input st
  parse_mode p first_mode input st = p.parse_mode_impl first_mode input st
