-- ===== src/Parser/Combinator/Recognize/Tests.antt =====
-- The theorem on `recognize`, applied to a slice of numbers.
use combine.Prelude.{ℕ, ◌≡◌, refl, true, List, [], ◌∷◌, done, ltb, arith}
use combine.Error.Types.{commit_ok}
use combine.Stream.Core.{Stream}
use combine.Stream.Slice.{Slice, slice_stream, uncons}
use combine.Parser.Core.{Parser}
use combine.Parser.Core.Fresh.{parse_fresh}
use combine.Parser.Token.{satisfy}
use combine.Parser.Sequence.Build.{with}
use combine.Parser.Repeat.Iter.{vec}
use combine.Parser.Combinator.Recognize.{recognize}
use combine.Parser.Combinator.Recognize.Reads.{reads, ends, extended, recognize-reads}

abbrev numbers : Stream
numbers = slice_stream ℕ 4

abbrev at : ℕ → List ℕ → Slice ℕ
at pointer items = record { pointer = pointer; items = items }

abbrev low : Parser numbers ℕ
low = satisfy numbers (λ x. ltb x 5)

-- A parser of two numbers gives the second, and `recognize` both.
recognize-reads_example :
    parse_fresh (recognize (vec ℕ) 9 (with low low)) (at 100 (1 ∷ 2 ∷ 7 ∷ []))
    ≡ done (commit_ok (1 ∷ 2 ∷ []), at 108 (7 ∷ []))
unfolding with satisfy uncons extended combine.Parser.Sequence.Errors.saturating_add
recognize-reads_example =
    recognize-reads {S = numbers} (vec ℕ) (with low low) (λ before now. refl) 9 true
      (at 100 (1 ∷ 2 ∷ 7 ∷ [])) (at 108 (7 ∷ [])) (1 ∷ 2 ∷ []) 2 _ refl
      (reads refl refl (reads refl refl (ends refl))) (omega arith)
