-- ===== src/Parser/Range/Tests.antt =====
-- The theorems on range parsers, applied to slices of numbers.
use combine.Prelude.{ℕ, ◌≡◌, refl, Bool, List, [], ◌∷◌, some, done, ltb, arith}
use combine.Error.Types.{commit_ok}
use combine.Stream.Slice.{Slice}
use combine.Parser.Range.Take.{prefix, rest}
use combine.Parser.Range.Feed.{feed, concat, add_chunk, take_while-fed}

abbrev small : ℕ → Bool
small x = ltb x 5

abbrev at : ℕ → List ℕ → Slice ℕ
at pointer items = record { pointer = pointer; items = items }

-- The third chunk holds the first number that is not small.
take_while-fed_example :
    (left : List ℕ) × (feed 4 small ((2 ∷ []) ∷ (3 ∷ 7 ∷ []) ∷ (8 ∷ []) ∷ []) (at 100 (1 ∷ [])) 1
      ≡ done (some (commit_ok (at 100 (1 ∷ 2 ∷ 3 ∷ [])), at 112 left, 0)))
unfolding prefix rest concat add_chunk
take_while-fed_example =
    take_while-fed 4 small ((2 ∷ []) ∷ (3 ∷ 7 ∷ []) ∷ (8 ∷ []) ∷ []) (at 100 (1 ∷ [])) 7 (8 ∷ [])
      (omega arith) refl refl
