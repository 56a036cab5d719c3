-- ===== src/Parser/Repeat/Tests.antt =====
-- The theorems on chains, on `sep_by` and on `take_until`, applied to slices of numbers.
use combine.Prelude.{ℕ, ◌+◌, ◌≡◌, refl, true, List, [], ◌∷◌, done, ltb, ◌==◌, arith}
use combine.Error.Types.{commit_ok}
use combine.Stream.Core.{Stream, IsResettable}
use combine.Stream.Slice.{Slice, slice_stream, uncons}
use combine.Stream.Ops.{uncons as uncons_input}
use combine.Parser.Core.{Parser}
use combine.Parser.Core.Fresh.{parse_fresh}
use combine.Parser.Token.{satisfy}
use combine.Parser.Combinator.{map}
use combine.Parser.Sequence.Build.{pair}
use combine.Parser.Repeat.Iter.{vec}
use combine.Parser.Repeat.Chain.{chainl1}
use combine.Parser.Sequence.Build.{with}
use combine.Parser.Combinator.{ignore}
use combine.Parser.Repeat.SepBy.{sep_by}
use combine.Parser.Repeat.SepBy.Collects.{sep_by-filled}
use combine.Parser.Repeat.Iter.Runs as Runs
use combine.Parser.Repeat.Iter.Runs.{filled}
use combine.Parser.Repeat.Chain.{chainr1}
use combine.Parser.Repeat.Chain.FoldRight as FoldRight
use combine.Parser.Repeat.Chain.Fold.{fold_left, stops, goes_on, chainl1-folds}
use combine.Parser.Repeat.Until.{take_until}
use combine.Parser.Repeat.Until.Reads.{ends, reads, committed_by, take_until-reads}

abbrev numbers : Stream
numbers = slice_stream ℕ 4

abbrev at : ℕ → List ℕ → Slice ℕ
at pointer items = record { pointer = pointer; items = items }

numbers-IsResettable : IsResettable numbers
numbers-IsResettable before now = refl

abbrev low : Parser numbers ℕ
low = satisfy numbers (λ x. ltb x 5)

abbrev seven : Parser numbers ℕ
seven = satisfy numbers (λ x. x == 7)

abbrev plus : Parser numbers (ℕ → ℕ → ℕ)
plus = map seven (λ _ a b. a + b)

chainl1-folds_example :
    parse_fresh (chainl1 low plus 9) (at 100 (1 ∷ 7 ∷ 2 ∷ 9 ∷ []))
    ≡ done (commit_ok 3, at 112 (9 ∷ []))
unfolding fold_left satisfy map pair uncons
chainl1-folds_example =
    chainl1-folds {S = numbers} low plus numbers-IsResettable 9 (at 100 (1 ∷ 7 ∷ 2 ∷ 9 ∷ []))
      (at 104 (7 ∷ 2 ∷ 9 ∷ [])) (at 112 (9 ∷ [])) 1 tt (((λ a b. a + b), 2) ∷ []) refl
      (goes_on refl (stops refl)) (omega arith)

take_until-reads_example :
    parse_fresh (take_until (vec ℕ) seven 9) (at 100 (1 ∷ 2 ∷ 7 ∷ 3 ∷ []))
    ≡ done (commit_ok (1 ∷ 2 ∷ []), at 108 (7 ∷ 3 ∷ []))
unfolding committed_by satisfy uncons uncons_input
take_until-reads_example =
    take_until-reads {S = numbers} seven numbers-IsResettable 9 (at 100 (1 ∷ 2 ∷ 7 ∷ 3 ∷ []))
      (at 108 (7 ∷ 3 ∷ [])) true (1 ∷ 2 ∷ []) (reads refl refl (reads refl refl (ends 7 refl)))
      (omega arith)

chainr1-folds_example :
    (chainr1 low plus 9).parse_lazy (at 100 (1 ∷ 7 ∷ 2 ∷ 9 ∷ []))
    ≡ done (commit_ok 3, at 112 (9 ∷ []))
unfolding FoldRight.fold_right satisfy map uncons
chainr1-folds_example =
    FoldRight.chainr1-folds {S = numbers} low plus numbers-IsResettable 9
      (at 100 (1 ∷ 7 ∷ 2 ∷ 9 ∷ [])) (at 104 (7 ∷ 2 ∷ 9 ∷ [])) (at 112 (9 ∷ [])) 1
      (((λ a b. a + b), 2) ∷ []) refl (FoldRight.goes_on refl refl (FoldRight.stops refl))
      (omega arith)

-- The operator is read, although no small number follows it.
chainr1-trailing_example :
    (chainr1 low plus 9).parse_lazy (at 100 (1 ∷ 7 ∷ 9 ∷ [])) ≡ done (commit_ok 1, at 108 (9 ∷ []))
unfolding satisfy map uncons
chainr1-trailing_example =
    FoldRight.chainr1-trailing {S = numbers} low plus numbers-IsResettable 8
      (at 100 (1 ∷ 7 ∷ 9 ∷ [])) (at 104 (7 ∷ 9 ∷ [])) (at 108 (9 ∷ [])) _ 1 _ _ refl refl refl

sep_by-filled_example :
    parse_fresh (sep_by (vec ℕ) 9 low seven) (at 100 (1 ∷ 7 ∷ 2 ∷ 9 ∷ []))
    ≡ done (commit_ok (1 ∷ 2 ∷ []), at 112 (9 ∷ []))
unfolding filled satisfy with ignore uncons combine.Parser.Sequence.Errors.saturating_add
sep_by-filled_example =
    sep_by-filled {S = numbers} (vec ℕ) low seven numbers-IsResettable 9
      (at 100 (1 ∷ 7 ∷ 2 ∷ 9 ∷ [])) (at 104 (7 ∷ 2 ∷ 9 ∷ [])) (at 112 (9 ∷ [])) 1 (2 ∷ []) tt refl
      (Runs.goes_on refl (Runs.stops refl)) (omega arith)
