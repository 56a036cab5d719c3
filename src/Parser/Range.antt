-- ===== src/Parser/Range.antt =====
-- src/parser/range.rs: the parsers that give a range of the input. A range stream `R` is an argument;
-- what they keep to be resumed is the distance that they had read.
pub mod Feed
pub mod Maybe
pub mod Resume
pub mod Take
mod Tests
pub mod Until
use combine.Prelude.{
  ℕ, Bool, true, false, not, ◌||◌, ◌&&◌, Result, ok, err, Run, done, panicked, ◌>>=◌, ◌==◌,
  if◌then◌else◌,
}
use combine.Error.Types.{
  Info, range, Tracked, tracked, ParseResult, commit_ok, peek_ok, commit_err, peek_err,
}
use combine.Stream.Ops.{wrap_stream_error}
use combine.Stream.Range.{RangeStream, Ranged, uncons_range, uncons_while, uncons_while1}
use combine.Parser.Core.{
  Parser, Reporter, ParseMode, is_first, Step, Outcome, parse_mode, leaf, resumable, reset_then,
  silent_error,
}
use combine.Parser.Combinator.{map}
use combine.Parser.Token.{expect}

-- The trait's methods for a parser that reports nothing.
abbrev pub no_report : (R : RangeStream) → Reporter R.stream
no_report R = record { add_error = λ e. e; add_committed_expected_error = λ e. e; parser_count = 1 }

module _ (R : RangeStream) where
  -- `Take`.
  unfoldable pub take : ℕ → Parser R.stream R.stream.Range
  unfolding leaf uncons_range
  take n = leaf R.stream (uncons_range R n) silent_error

  module _ (eq : R.stream.Range → R.stream.Range → Bool) (expected : R.stream.Range) where
    range_found :
        R.stream.Position
        → Result R.stream.Range R.stream.StreamErrorFor × R.stream.Input
        → Ranged R
    unfolding wrap_stream_error
    range_found position (ok other, input) = (
      if eq other expected
          then commit_ok other
          else peek_err (tracked (R.stream.parse_error.empty position)),
      input,
    )
    range_found position (err e, input) = (wrap_stream_error R.stream input e, input)

    -- `Range`.
    unfoldable pub range_parser : Parser R.stream R.stream.Range
    unfolding leaf range_found expect
    range_parser =
        leaf R.stream
          (λ input. do
            r ← R.uncons_range (R.len expected) input
            done (range_found (R.stream.position input) r))
          (expect R.stream (range expected))

  module _ {A : Type 0} where
    -- A committed error: the distance that was read is kept, and the input goes back.
    unfoldable pub suspend :
        {P : Type 0}
        → R.stream.Checkpoint
        → R.stream.Error
        → R.stream.Input
        → (ℕ → P)
        → Run (Step R.stream A P)
    unfolding reset_then
    suspend before e input keep = do
      d ← R.distance input before
      done (
          reset_then R.stream before input (λ e' i. (commit_err e', i, keep d))
            λ i. (commit_err e, i, keep d))

    unfoldable pub retaken :
        {P : Type 0} → (R.stream.Range → A) → P → P → Ranged R → Step R.stream A P
    retaken f kept fresh (commit_ok x, input) = (commit_ok (f x), input, fresh)
    retaken f kept fresh (peek_ok x, input) = (peek_ok (f x), input, fresh)
    retaken f kept fresh (commit_err e, input) = (commit_err e, input, kept)
    retaken f kept fresh (peek_err e, input) = (peek_err e, input, kept)

    -- The end of a parse: the input goes back, and all that was read is taken as one range.
    unfoldable pub retake :
        {P : Type 0}
        → R.stream.Checkpoint
        → R.stream.Input
        → (R.stream.Range → A)
        → P
        → P
        → Run (Step R.stream A P)
    unfolding reset_then uncons_range retaken
    retake before input f kept fresh = do
      d ← R.distance input before
      reset_then R.stream before input (λ e i. done (commit_err e, i, kept))
          λ i. do r ← uncons_range R d i; done (retaken f kept fresh r)

  -- `input.uncons_range(d)` where the program panics on an error.
  unfoldable pub skip_read : {X : Type 0} → ℕ → R.stream.Input → (R.stream.Input → Run X) → Run X
  skip_read d input k = do
    (r, input') ← R.uncons_range d input
    elim r [ ok _ ↦ k input' | err _ ↦ panicked ]

  unfoldable pub first_result :
      R.stream.Checkpoint → ℕ → Ranged R → Run (Step R.stream R.stream.Range ℕ)
  unfolding suspend
  first_result before d (commit_err e, input) = suspend before e input (λ d'. d')
  first_result before d (commit_ok x, input) = done (commit_ok x, input, d)
  first_result before d (peek_ok x, input) = done (peek_ok x, input, d)
  first_result before d (peek_err e, input) = done (peek_err e, input, d)

  unfoldable pub resume_result :
      R.stream.Checkpoint → ℕ → Ranged R → Run (Step R.stream R.stream.Range ℕ)
  unfolding suspend retake
  resume_result before d (commit_err e, input) = suspend before e input (λ d'. d')
  resume_result before d (peek_err e, input) = done (peek_err e, input, d)
  resume_result before d (commit_ok _, input) = retake before input (λ x. x) d 0
  resume_result before d (peek_ok _, input) = retake before input (λ x. x) d 0

  unfoldable pub parse_partial_range :
      (R.stream.Input → Run (Ranged R))
      → (R.stream.Input → Run (Ranged R))
      → ParseMode
      → R.stream.Input
      → ℕ
      → Run (Step R.stream R.stream.Range ℕ)
  unfolding first_result resume_result skip_read is_first
  parse_partial_range first resume mode input d =
      let before = R.stream.checkpoint input in
      let whole : Run (Step R.stream R.stream.Range ℕ) = do
        (r, input') ← first input
        done (r, input', d)
      in let started : Run (Step R.stream R.stream.Range ℕ) = do
        r ← first input
        first_result before d r
        in let resumed : Run (Step R.stream R.stream.Range ℕ) =
            skip_read d input λ input'. do r ← resume input'; resume_result before d r
          in if not (R.stream.is_partial input)
            then whole
            else if is_first mode || d == 0
            then started
            else resumed

  unfoldable pub take_while : (R.stream.Token → Bool) → Parser R.stream R.stream.Range
  unfolding resumable parse_partial_range uncons_while
  take_while f =
      resumable R.stream 0 (parse_partial_range (uncons_while R f) (uncons_while R f)) (no_report R)

  unfoldable pub take_while1 : (R.stream.Token → Bool) → Parser R.stream R.stream.Range
  unfolding resumable parse_partial_range uncons_while uncons_while1
  take_while1 f =
      resumable R.stream 0 (parse_partial_range (uncons_while1 R f) (uncons_while R f))
        (no_report R)

  module _ {A : Type 0} where
    recognized :
        {P : Type 0}
        → R.stream.Checkpoint
        → ℕ
        → Step R.stream A P
        → Run (Step R.stream (R.stream.Range × A) (ℕ × P))
    unfolding suspend retake
    recognized before d (commit_ok v, input, st) = retake before input (λ x. (x, v)) (d, st) (0, st)
    recognized before d (peek_ok v, input, st) = retake before input (λ x. (x, v)) (d, st) (0, st)
    recognized before d (peek_err e, input, st) = done (peek_err e, input, (d, st))
    recognized before d (commit_err e, input, st) = suspend before e input (λ d'. (d', st))

    -- `RecognizeWithValue`.
    unfoldable pub recognize_with_value : Parser R.stream A → Parser R.stream (R.stream.Range × A)
    unfolding resumable recognized parse_mode is_first skip_read
    recognize_with_value p =
        resumable R.stream (0, p.default)
          (λ mode input st.
            let run = λ (i : R.stream.Input). do
              r ← parse_mode p mode i st.1
              recognized (R.stream.checkpoint input) st.0 r
            in if is_first mode then run input else skip_read st.0 input run)
          (record (no_report R) { add_error = p.reporter.add_error })

    -- `Recognize`.
    unfoldable pub recognize : Parser R.stream A → Parser R.stream R.stream.Range
    unfolding recognize_with_value map
    recognize p = map (recognize_with_value p) (λ v. v.0)
