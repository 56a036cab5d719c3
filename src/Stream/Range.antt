-- ===== src/Stream/Range.antt =====
-- src/stream/mod.rs: the trait `RangeStreamOnce` as an interface over a stream, what its doc asks of
-- it, and the functions over range streams. A predicate is a function without side effects; the
-- provided `uncons_while1` is left out, since every stream here has its own.
pub mod Slices
pub mod Wrappers
use combine.Prelude.{
  ℕ, Bool, true, false, Result, ok, err, Run, done, panicked, ◌>>=◌, ◌≡◌, ◌==◌, if◌then◌else◌,
}
use combine.Error.Types.{ParseResult, commit_ok, peek_ok, commit_err, peek_err, tracked}
use combine.Stream.Core.{Stream, IsResettable}
use combine.Stream.Ops.{wrap_stream_error, input_at_eof}

-- `RangeStream`; `len` is that of the trait `Range`.
pub record RangeStream : Type 1 where
  pub stream : Stream
  pub uncons_range :
      ℕ → stream.Input → Run (Result stream.Range stream.StreamErrorFor × stream.Input)
  pub uncons_while :
      (stream.Token → Bool)
      → stream.Input
      → Run (Result stream.Range stream.StreamErrorFor × stream.Input)
  pub uncons_while1 :
      (stream.Token → Bool)
      → stream.Input
      → Run (ParseResult stream.Range stream.StreamErrorFor × stream.Input)
  pub distance : stream.Input → stream.Checkpoint → Run ℕ
  pub range : stream.Input → stream.Range
  pub len : stream.Range → ℕ

-- What the docs of `reset` and of `distance` ask: a reset goes back, and the distance to a checkpoint
-- is the size of the range that was taken since.
pub record IsLawful (R : RangeStream) : Type 0 where
  pub resettable : IsResettable R.stream
  pub distance_lem :
      (n : ℕ) (input input' : R.stream.Input) (x : R.stream.Range)
      → R.uncons_range n input ≡ done (ok x, input')
      → R.distance input' (R.stream.checkpoint input) ≡ done n

module _ (R : RangeStream) where
  -- The outcome of a parse that gives a range.
  abbrev pub Ranged : Type 0
  Ranged = ParseResult R.stream.Range R.stream.Error × R.stream.Input

  unfoldable pub range_result :
      ℕ → Result R.stream.Range R.stream.StreamErrorFor × R.stream.Input → Ranged
  range_result size (ok x, input) = (if size == 0 then peek_ok x else commit_ok x, input)
  range_result size (err e, input) = (wrap_stream_error R.stream input e, input)

  unfoldable pub uncons_range : ℕ → R.stream.Input → Run Ranged
  unfolding wrap_stream_error range_result
  uncons_range size input = do r ← R.uncons_range size input; done (range_result size r)

  -- `input.is_partial() && input_at_eof(input)`.
  unfoldable pub partial_end : R.stream.Input → Bool × R.stream.Input
  unfolding input_at_eof
  partial_end input =
      if R.stream.is_partial input then input_at_eof R.stream input else (false, input)

  -- An error at the end of a partial input, so that more input is asked for, or another result.
  unfoldable pub or_end :
      (R.stream.Input → ParseResult R.stream.Range R.stream.Error) → R.stream.Input → Ranged
  unfolding partial_end
  or_end otherwise input =
      let (at_end, input') = partial_end input in
      let e =
        R.stream.parse_error.from_error (R.stream.position input')
          R.stream.parse_error.stream_error.end_of_input in
      (if at_end then commit_err e else otherwise input', input')

  while_result : Result R.stream.Range R.stream.StreamErrorFor × R.stream.Input → Ranged
  unfolding or_end wrap_stream_error
  while_result (err e, input) = (wrap_stream_error R.stream input e, input)
  while_result (ok x, input) = or_end (λ _. if R.len x == 0 then peek_ok x else commit_ok x) input

  unfoldable pub uncons_while : (R.stream.Token → Bool) → R.stream.Input → Run Ranged
  unfolding while_result
  uncons_while predicate input = do r ← R.uncons_while predicate input; done (while_result r)

  while1_result : ParseResult R.stream.Range R.stream.StreamErrorFor × R.stream.Input → Run Ranged
  unfolding or_end wrap_stream_error
  while1_result (commit_ok x, input) = done (or_end (λ _. commit_ok x) input)
  while1_result (peek_err e, input) =
      done
        (or_end (λ i. peek_err (tracked (R.stream.parse_error.empty (R.stream.position i)))) input)
  while1_result (commit_err e, input) = done (or_end (λ i. wrap_stream_error R.stream i e) input)
  while1_result (peek_ok x, input) = panicked

  unfoldable pub uncons_while1 : (R.stream.Token → Bool) → R.stream.Input → Run Ranged
  unfolding while1_result
  uncons_while1 predicate input = do r ← R.uncons_while1 predicate input; while1_result r
