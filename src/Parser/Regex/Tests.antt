-- ===== src/Parser/Regex/Tests.antt =====
-- The theorems on the parsers on groups, applied to a slice.
use combine.Prelude.{ℕ, ◌≡◌, refl, List, [], ◌∷◌, some, none, true, map}
use combine.Stream.Slice.{Slice}
use combine.Stream.Range.Slices.{slices}
use combine.Parser.Regex.{MatchFind, Regex, first, vec, find, find_many, captures, captures_many}
use combine.Parser.Regex.Groups.{given, captures-find, captures_many-find_many}

abbrev at : ℕ → List ℕ → Slice ℕ
at pointer items = record { pointer = pointer; items = items }

abbrev found : ℕ → ℕ → List ℕ → MatchFind (Slice ℕ)
found end pointer items = record { end = end; as_match = at pointer items }

-- Two matches in a slice of six items, with a group that is missing in the first.
abbrev two_matches : Regex (Slice ℕ)
two_matches = record {
  is_match = λ _. true;
  find_iter = λ _. found 2 1 (5 ∷ []) ∷ found 4 3 (6 ∷ []) ∷ [];
  captures_iter = λ _.
      (some (found 2 1 (5 ∷ [])) ∷ none ∷ [])
      ∷ (some (found 4 3 (6 ∷ [])) ∷ some (found 4 3 []) ∷ [])
      ∷ [];
  as_str = "[56]";
}

abbrev items : Slice ℕ
items = at 0 (1 ∷ 5 ∷ 1 ∷ 6 ∷ 1 ∷ 1 ∷ [])

captures-find_example :
    (captures (slices ℕ 1) two_matches first).parse_lazy items
    ≡ given (slices ℕ 1) some ((find (slices ℕ 1) two_matches).parse_lazy items)
captures-find_example = captures-find (slices ℕ 1) two_matches items (refl, (refl, tt))

captures_many-find_many_example :
    (captures_many (slices ℕ 1) two_matches first (λ gs. gs)).parse_lazy items
    ≡ given (slices ℕ 1) (map some) ((find_many (slices ℕ 1) two_matches vec).parse_lazy items)
captures_many-find_many_example =
    captures_many-find_many (slices ℕ 1) two_matches items (refl, (refl, tt))
