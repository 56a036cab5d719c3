-- ===== src/Parser/Regex.antt =====
-- src/parser/regex.rs: the parsers on regular expressions. The crate `regex` is an argument: what its
-- searches give on a range.
pub mod Groups
mod Tests
use combine.Prelude.{
  ℕ, String, Bool, List, [], ◌∷◌, Option, some, none, Run, done, panicked, ◌>>=◌, length, take, map,
  if◌then◌else◌,
}
use combine.Error.Types.{format, Tracked, tracked, peek_ok, peek_err}
use combine.Error.ParseResult
use combine.Stream.Range.{RangeStream}
use combine.Parser.Core.{Parser, Outcome, leaf}
use combine.Parser.Range
use combine.Parser.Token.{expect}

-- A match: its end and its range.
pub record MatchFind (Rng : Type 0) : Type 0 where
  pub end : ℕ
  pub as_match : Rng

-- `Regex<Range>` by what the crate gives: `find_iter` all matches, `captures_iter` the groups of each,
-- of which the first is the whole match and others may be missing.
pub record Regex (Rng : Type 0) : Type 0 where
  pub is_match : Rng → Bool
  pub find_iter : Rng → List (MatchFind Rng)
  pub captures_iter : Rng → List (List (Option (MatchFind Rng)))
  pub as_str : String

-- `FromIterator`: the collection, and how many of the items it takes from the iterator.
pub record FromIterator (A F : Type 0) : Type 0 where
  pub from_iter : List A → F
  pub taken : List A → ℕ

-- `First`, which takes one item.
abbrev head : {A : Type 0} → List A → Option A
head [] = none
head (x ∷ xs) = some x

abbrev pub first : {A : Type 0} → FromIterator A (Option A)
first = record { from_iter = head; taken = λ _. 1 }

abbrev pub vec : {A : Type 0} → FromIterator A (List A)
vec = record { from_iter = λ xs. xs; taken = length }

module _ {Rng : Type 0} where
  -- The end of the last match that was taken.
  unfoldable pub last_end : ℕ → List (MatchFind Rng) → ℕ
  last_end end [] = end
  last_end end (m ∷ ms) = last_end m.end ms

  -- The function `find_iter`.
  unfoldable pub find_iter : {F : Type 0} → FromIterator Rng F → List (MatchFind Rng) → ℕ × F
  unfolding last_end
  find_iter c ms =
      let ranges = map (λ (m : MatchFind Rng). m.as_match) ms in
      (last_end 0 (take (c.taken ranges) ms), c.from_iter ranges)

  unfoldable pub present : List (Option (MatchFind Rng)) → List Rng
  present [] = []
  present (none ∷ ms) = present ms
  present (some m ∷ ms) = m.as_match ∷ present ms

  -- The groups of one match; the first must be there.
  unfoldable pub groups : List (Option (MatchFind Rng)) → Run (ℕ × List Rng)
  unfolding present
  groups [] = panicked
  groups (none ∷ ms) = panicked
  groups (some m ∷ ms) = done (m.end, m.as_match ∷ present ms)

  unfoldable pub all_groups : ℕ → List (List (Option (MatchFind Rng))) → Run (ℕ × List (List Rng))
  unfolding groups
  all_groups end [] = done (end, [])
  all_groups end (c ∷ cs) = do
    (end', g) ← groups c
    (last, gs) ← all_groups end' cs
    done (last, g ∷ gs)

  -- `captures`, collected by `c` over the groups collected by `g`.
  unfoldable pub captures_of :
      {F G : Type 0}
      → FromIterator Rng F
      → FromIterator F G
      → ℕ
      → List (List (Option (MatchFind Rng)))
      → Run (ℕ × G)
  unfolding all_groups
  captures_of g c n cs = do
    (end, gs) ← all_groups 0 (take n cs)
    done (end, c.from_iter (map g.from_iter gs))

module _ (R : RangeStream) (regex : Regex R.stream.Range) where
  -- What all of them report: the expression, as `described` has it.
  abbrev expects : Tracked R.stream.Error → Tracked R.stream.Error
  unfolding expect
  expects = expect R.stream (format regex.as_str)

  -- `take(end).parse_lazy(input).map(|_| value)`.
  unfoldable pub take_to : {A : Type 0} → ℕ → A → R.stream.Input → Run (Outcome R.stream A)
  unfolding Range.take ParseResult.map
  take_to end value input = do
    (r, input') ← (Range.take R end).parse_lazy input
    done (ParseResult.map (λ _. value) r, input')

  refused : {A : Type 0} → R.stream.Input → Run (Outcome R.stream A)
  refused input =
      done (peek_err (tracked (R.stream.parse_error.empty (R.stream.position input))), input)

  first_found : {A : Type 0} → ℕ × Option A → R.stream.Input → Run (Outcome R.stream A)
  unfolding take_to refused
  first_found (end, some value) input = take_to end value input
  first_found (end, none) input = refused input

  unfoldable pub match_ : Parser R.stream R.stream.Range
  unfolding leaf refused expects
  match_ =
      leaf R.stream
        (λ input.
          if regex.is_match (R.range input)
          then done (peek_ok (R.range input), input)
          else refused input)
        expects

  unfoldable pub find : Parser R.stream R.stream.Range
  unfolding leaf find_iter first_found expects
  find =
      leaf R.stream (λ input. first_found (find_iter first (regex.find_iter (R.range input))) input)
        expects

  unfoldable pub find_many : {F : Type 0} → FromIterator R.stream.Range F → Parser R.stream F
  unfolding leaf find_iter take_to expects
  find_many c =
      leaf R.stream
        (λ input.
          let found = find_iter c (regex.find_iter (R.range input)) in
          take_to found.0 found.1 input)
        expects

  unfoldable pub captures : {F : Type 0} → FromIterator R.stream.Range F → Parser R.stream F
  unfolding leaf captures_of first_found expects
  captures g =
      leaf R.stream
        (λ input. do
          found ← captures_of g first 1 (regex.captures_iter (R.range input))
          first_found found input)
        expects

  -- The outer collection takes all matches.
  unfoldable pub captures_many :
      {F G : Type 0} → FromIterator R.stream.Range F → (List F → G) → Parser R.stream G
  unfolding leaf captures_of take_to expects
  captures_many g collect =
      leaf R.stream
        (λ input. do
          let all = regex.captures_iter (R.range input)
          found ← captures_of g (record { from_iter = collect; taken = length }) (length all) all
          take_to found.0 found.1 input)
        expects
