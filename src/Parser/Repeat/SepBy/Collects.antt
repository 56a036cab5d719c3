-- ===== src/Parser/Repeat/SepBy/Collects.antt =====
-- src/parser/repeat.rs: what `sep_by` and `sep_by1` collect.
use combine.Prelude.{
  ℕ, ◌<◌, ◌≡◌, refl, ◌∙◌, false, List, [], ◌∷◌, length, done, Bool-cases, inl, inr,
}
use combine.Error.Types.{commit_ok}
use combine.Error.Commit.{combine_commit, committed_result}
use combine.Stream.Core.{Stream, IsResettable}
use combine.Parser.Core.{Parser, first_mode, parse_mode}
use combine.Parser.Core.Fresh.{parse_fresh}
use combine.Parser.Choice.First.{choice-first}
use combine.Parser.Choice.Attempt.{or-choice}
use combine.Parser.Sequence.Build.{with}
use combine.Parser.Repeat.Iter.{Collection, into_result_fast, iter_result}
use combine.Parser.Repeat.Iter.Runs.{Runs, filled, drain-filled, committed_after}
use combine.Parser.Repeat.SepBy.{
  sep_by1, sep_by, sep_by1_step, sep_by1_first, sep_by1_rest, nothing, set_second,
}
use combine.Parser.Repeat.SepBy.Empty.{sep_by-or}

module _ {S : Stream} {A B F : Type 0} (c : Collection A F) (p : Parser S A)
    (separator : Parser S B) (resettable : IsResettable S) where
  -- On a stream that honours its checkpoints, where the parser succeeds and commits, then the separator
  -- with the parser does so again and again, and then fails with nothing committed, `sep_by1`, with fuel
  -- above the number of these rounds, gives the collection of all items, at the input before the round
  -- that failed.
  pub sep_by1-filled :
      (fuel : ℕ) (input input' last : S.Input) (x : A) (xs : List A) (st : p.PartialState)
      → p.parse_mode_impl first_mode input p.default ≡ done (commit_ok x, input', st)
      → Runs
          (with separator p)
          last
          input'
          (set_second c fuel p separator st (with separator p).default)
          xs
      → length xs < fuel
      → parse_fresh (sep_by1 c fuel p separator) input
        ≡ done (commit_ok (filled c (c.extend c.empty x) xs), last)
  unfolding sep_by1 sep_by1_step sep_by1_first sep_by1_rest parse_fresh parse_mode with
      into_result_fast iter_result combine_commit committed_result
  sep_by1-filled fuel input input' last x xs st ran runs enough =
      let (st', drained) =
        drain-filled (with separator p) c resettable fuel false input' last _ xs
          (c.extend c.empty x) runs enough in
      elim (Bool-cases (committed_after (with separator p) false xs)) [
        | inl some_committed ↦ rw (ran, drained, some_committed) refl
        | inr none_committed ↦ rw (ran, drained, none_committed) refl
      ]

  -- `sep_by` does the same there.
  pub sep_by-filled :
      (fuel : ℕ) (input input' last : S.Input) (x : A) (xs : List A) (st : p.PartialState)
      → p.parse_mode_impl first_mode input p.default ≡ done (commit_ok x, input', st)
      → Runs
          (with separator p)
          last
          input'
          (set_second c fuel p separator st (with separator p).default)
          xs
      → length xs < fuel
      → parse_fresh (sep_by c fuel p separator) input
        ≡ done (commit_ok (filled c (c.extend c.empty x) xs), last)
  sep_by-filled fuel input input' last x xs st ran runs enough =
      sep_by-or c fuel p separator input
      ∙ or-choice (sep_by1 c fuel p separator) (nothing c fuel p separator) input
      ∙ choice-first resettable [] (sep_by1 c fuel p separator) (nothing c fuel p separator ∷ [])
          input last (commit_ok (filled c (c.extend c.empty x) xs)) tt tt
          (sep_by1-filled fuel input input' last x xs st ran runs enough)
