-- ===== src/Parser/Range/Until.antt =====
-- src/parser/range.rs: `TakeUntilRange` and `TakeFn`. The loop of the first has fuel: it moves on by a
-- token in each round.
use combine.Prelude.{
  ℕ, zero, suc, ◌+◌, ◌-◌, Bool, not, ◌&&◌, Option, some, none, Result, ok, err, Run, done,
  out_of_fuel, panicked, ◌>>=◌, leb, ◌==◌, if◌then◌else◌,
}
use combine.Error.Types.{tracked, commit_ok, peek_ok, commit_err, peek_err}
use combine.Error.ParseResult.{is_ok}
use combine.Stream.Ops.{wrap_stream_error}
use combine.Stream.Range.{RangeStream, Ranged, uncons_range}
use combine.Parser.Core.{Parser, ParseMode, is_first, Step, resumable, reset_then}
use combine.Parser.Range.{no_report}

module _ (R : RangeStream) where
  -- The step of a parser whose state is a number.
  abbrev pub Counted : Type 0
  Counted = Run (Step R.stream R.stream.Range ℕ)

  -- What follows `ctry!(input.reset(c).committed())`, with the state as it is.
  unfoldable pub back_to :
      R.stream.Checkpoint → ℕ → R.stream.Input → (R.stream.Input → Counted) → Counted
  unfolding reset_then
  back_to c n input k = reset_then R.stream c input (λ e i. done (commit_err e, i, n)) k

  module _ (eq : R.stream.Range → R.stream.Range → Bool) (expected : R.stream.Range) where
    -- The first error of the loop, and how far it was from the start.
    abbrev pub FirstError : Type 0
    FirstError = Option (R.stream.StreamErrorFor × ℕ)

    -- The range before the one that was found; it can be taken, since it was read.
    taken_before : ℕ → ℕ → Result R.stream.Range R.stream.StreamErrorFor × R.stream.Input → Counted
    taken_before n d (ok committed, input) =
        if d == 0 then done (peek_ok committed, input, n) else done (commit_ok committed, input, 0)
    taken_before n d (err _, input) = panicked

    found : R.stream.Checkpoint → ℕ → R.stream.Input → Counted
    unfolding back_to taken_before
    found before n input = do
      d ← R.distance input before
      let size = R.len expected
      if leb size d
          then back_to before n input
              (λ i. do r ← R.uncons_range (d - size) i; taken_before n (d - size) r)
          else panicked

    note_error :
        FirstError
        → R.stream.StreamErrorFor
        → R.stream.Input
        → R.stream.Checkpoint
        → Run (R.stream.StreamErrorFor × ℕ)
    note_error (some e) e' input before = done e
    note_error none e' input before = do d ← R.distance input before; done (e', d)

    -- The loop moves on by a token, or stops at the end of the input.
    move_on :
        (R.stream.Input → Counted)
        → (R.stream.Input → Counted)
        → Result R.stream.Token R.stream.StreamErrorFor × R.stream.Input
        → Counted
    move_on next stop (ok _, input) = next input
    move_on next stop (err _, input) = stop input

    unfoldable pub take_until_result :
        (R.stream.Input → FirstError → Counted)
        → R.stream.Checkpoint
        → ℕ
        → R.stream.Input
        → FirstError
        → Result R.stream.Range R.stream.StreamErrorFor × R.stream.Input
        → Counted
    unfolding found note_error move_on back_to wrap_stream_error
    take_until_result loop before n here first_error (ok xs, input) =
        if eq xs expected
        then found before n input
        else back_to (R.stream.checkpoint here) n input
            λ i. move_on (λ i'. loop i' first_error) (λ _. panicked) (R.stream.uncons i)
    take_until_result loop before n here first_error (err e, input) = do
      (e₁, d) ← note_error first_error e input before
      back_to (R.stream.checkpoint here) n input λ i.
          move_on (λ i'. loop i' (some (e₁, d)))
            (λ i'. back_to before n i' λ i''. done (wrap_stream_error R.stream i'' e₁, i'', d))
            (R.stream.uncons i)

    -- `loop { .. }`: `here` is the input at its top.
    unfoldable pub take_until_loop :
        ℕ → R.stream.Checkpoint → ℕ → R.stream.Input → FirstError → Counted
    unfolding take_until_result
    take_until_loop zero before n here first_error = out_of_fuel
    take_until_loop (suc fuel) before n here first_error = do
      r ← R.uncons_range (R.len expected) here
      take_until_result (take_until_loop fuel before n) before n here first_error r

    take_until_start : ℕ → R.stream.Checkpoint → ℕ → Ranged R → Counted
    unfolding take_until_loop
    take_until_start fuel before n (commit_ok _, input) = take_until_loop fuel before n input none
    take_until_start fuel before n (peek_ok _, input) = take_until_loop fuel before n input none
    take_until_start fuel before n (commit_err e, input) = done (commit_err e, input, n)
    take_until_start fuel before n (peek_err e, input) = done (peek_err e, input, n)

    unfoldable pub take_until_range : ℕ → Parser R.stream R.stream.Range
    unfolding resumable take_until_start uncons_range
    take_until_range fuel =
        resumable R.stream 0
          (λ mode input n. do
            r ← uncons_range R n input
            take_until_start fuel (R.stream.checkpoint input) n r)
          (no_report R)

-- `TakeRange`.
pub data TakeRange : Type 0 where
  found_at : ℕ → TakeRange
  not_found : ℕ → TakeRange

-- `From<Option<usize>> for TakeRange`.
unfoldable pub from_option : Option ℕ → TakeRange
from_option (some i) = found_at i
from_option none = not_found 0

module _ (R : RangeStream) where
  unfoldable pub take_fn_result : R.stream.Checkpoint → ℕ → R.stream.Input → TakeRange → Counted R
  unfolding back_to uncons_range is_ok
  take_fn_result before offset input (found_at i) = back_to R before offset input λ i'. do
    (r, i'') ← uncons_range R (offset + i) i'
    done (r, i'', if is_ok r then 0 else offset)
  take_fn_result before offset input (not_found next_offset) = do
    let remaining = R.range input
    (_, input₁) ← R.uncons_range (R.len remaining) input
    let position = R.stream.position input₁
    let e = R.stream.parse_error.from_error position R.stream.parse_error.stream_error.end_of_input
    back_to R before next_offset input₁ λ i. done (
      if not (R.stream.is_partial i) && R.len remaining == 0
          then peek_err (tracked e)
          else commit_err e,
      i,
      next_offset,
    )

  take_fn_step : (R.stream.Range → TakeRange) → ParseMode → R.stream.Input → ℕ → Counted R
  unfolding take_fn_result is_first
  take_fn_step searcher mode input offset =
      let first = take_fn_result (R.stream.checkpoint input) 0 input (searcher (R.range input)) in
      let resumed : Counted R = do
        (_, input') ← R.uncons_range offset input
        take_fn_result (R.stream.checkpoint input) offset input' (searcher (R.range input'))
      in if is_first mode then first else resumed

  unfoldable pub take_fn : (R.stream.Range → TakeRange) → Parser R.stream R.stream.Range
  unfolding resumable take_fn_step
  take_fn searcher = resumable R.stream 0 (take_fn_step searcher) (no_report R)
