-- ===== src/Parser/Range/Take.antt =====
-- src/parser/range.rs over slices: `take_while` reads the longest prefix that passes.
use combine.Prelude.{
  ℕ, suc, ◌+◌, ◌*◌, ◌≡◌, refl, Bool, List, [], ◌∷◌, Run, done, ◌==◌, if◌then◌else◌, length,
  take_while, drop_while, arith,
}
use combine.Error.Types.{ParseResult, commit_ok, peek_ok, commit_err}
use combine.Error.Unexpected.{UnexpectedParse, eoi, unexpected_parse_error}
use combine.Stream.Slice.{Slice, slice_stream, slice_uncons_while, uncons}
use combine.Stream.Slice.While.{slice_uncons_while-eq-take_while}
use combine.Stream.Range.{RangeStream, uncons_while, or_end}
use combine.Stream.Range.Slices.{slices}
use combine.Stream.Range.Wrappers.{partial_range}
use combine.Parser.Core.{ParseMode, Step}
use combine.Parser.Core.Fresh.{parse_fresh}
use combine.Parser.Range
use combine.Parser.Range.{
  parse_partial_range, skip_read, retake, suspend, first_result, resume_result,
}

module _ {T : Type 0} (size : ℕ) (f : T → Bool) where
  abbrev pub partial_slices : RangeStream
  partial_slices = partial_range (slices T size)

  -- The prefix that passes, and what is behind it.
  unfoldable pub prefix : Slice T → Slice T
  prefix s = record { pointer = s.pointer; items = take_while f s.items }

  unfoldable pub rest : Slice T → Slice T
  rest s = record {
    pointer = s.pointer + length (take_while f s.items) * size;
    items = drop_while f s.items;
  }

  pub slice-while :
      (s : Slice T) → slice_uncons_while f size (suc (length s.items)) s 0 ≡ done (prefix s, rest s)
  unfolding prefix rest
  slice-while s = slice_uncons_while-eq-take_while f size (suc (length s.items)) s (omega arith)

  -- On a slice that is all there.
  pub take_while-whole :
      (s : Slice T)
      → parse_fresh (Range.take_while (slices T size) f) s
        ≡ done (
          if length (take_while f s.items) == 0 then peek_ok (prefix s) else commit_ok (prefix s),
          rest s,
        )
  unfolding parse_fresh Range.take_while prefix rest
  take_while-whole s = rw (slice-while s) refl

  -- The step of `take_while` over a slice that is partial.
  abbrev pub step : ParseMode → Slice T → ℕ → Run (Step (slice_stream T size) (Slice T) ℕ)
  step =
      parse_partial_range partial_slices (uncons_while partial_slices f)
        (uncons_while partial_slices f)

  -- The result of `uncons_while` but for the end of the input.
  unfoldable kept : Slice T → Slice T → ParseResult (Slice T) UnexpectedParse
  unfolding prefix
  kept s _ = if length (take_while f s.items) == 0 then peek_ok (prefix s) else commit_ok (prefix s)

  or_end-more :
      (k : Slice T → ParseResult (Slice T) UnexpectedParse) (p : ℕ)
      → or_end partial_slices k (record { pointer = p; items = [] })
        ≡ (commit_err eoi, record { pointer = p; items = [] })
  unfolding or_end uncons unexpected_parse_error
  or_end-more k p = refl

  or_end-enough :
      (k : Slice T → ParseResult (Slice T) UnexpectedParse) (p : ℕ) (x : T) (xs : List T)
      → or_end partial_slices k (record { pointer = p; items = x ∷ xs })
        ≡ (k (record { pointer = p; items = x ∷ xs }), record { pointer = p; items = x ∷ xs })
  unfolding or_end uncons
  or_end-enough k p x xs = refl

  -- All of a partial slice passes: more input is asked for.
  pub while-more :
      (s : Slice T)
      → drop_while f s.items ≡ []
      → uncons_while partial_slices f s ≡ done (commit_err eoi, rest s)
  unfolding uncons_while rest kept
  while-more s all_pass =
      let at_end = or_end-more (kept s) (s.pointer + length (take_while f s.items) * size) in
      rw (slice-while s, all_pass, at_end)

  -- Where an item of a partial slice does not pass, there is a result.
  pub while-enough :
      (s : Slice T) (x : T) (xs : List T)
      → drop_while f s.items ≡ x ∷ xs
      → uncons_while partial_slices f s
        ≡ done (
          if length (take_while f s.items) == 0 then peek_ok (prefix s) else commit_ok (prefix s),
          rest s,
        )
  unfolding uncons_while prefix rest kept
  while-enough s x xs some_fail =
      let enough = or_end-enough (kept s) (s.pointer + length (take_while f s.items) * size) x xs in
      rw (slice-while s, some_fail, enough)
