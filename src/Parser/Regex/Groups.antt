-- ===== src/Parser/Regex/Groups.antt =====
-- src/parser/regex.rs: the parsers on groups against those on matches, where the crate gives the groups
-- of the same matches.
use combine.Prelude.{
  ℕ, ◌≡◌, refl, ap, List, [], ◌∷◌, Option, some, none, Run, done, ◌>>=◌, length, take, map,
  bind_then,
}
use combine.Error.ParseResult
use combine.Error.Types.{ParseResult, commit_ok, peek_ok, commit_err, peek_err}
use combine.Stream.Range.{RangeStream}
use combine.Parser.Core.{Outcome}
use combine.Parser.Range
use combine.Parser.Regex.{
  MatchFind, Regex, first, vec, last_end, find_iter, present, groups, all_groups, captures_of,
  take_to, first_found, find, find_many, captures, captures_many,
}

-- Each match with its groups, of which the first is the match.
abbrev pub GroupsOf :
    {Rng : Type 0} → List (List (Option (MatchFind Rng))) → List (MatchFind Rng) → Type 0
GroupsOf [] [] = Unit
GroupsOf ((some m ∷ _) ∷ cs) (m' ∷ ms) = (m ≡ m') × GroupsOf cs ms
GroupsOf _ _ = ⊥

-- The result with its value replaced.
abbrev pub given :
    (R : RangeStream) {A B : Type 0} → (A → B) → Run (Outcome R.stream A) → Run (Outcome R.stream B)
unfolding ParseResult.map
given R f run = do (r, input) ← run; done (ParseResult.map f r, input)

module _ {Rng : Type 0} where
  -- The first groups of all matches, and the end of the last.
  all_groups-last_end :
      (end : ℕ) (cs : List (List (Option (MatchFind Rng)))) (ms : List (MatchFind Rng))
      → GroupsOf cs ms
      → (gs : List (List Rng)) × (all_groups end cs ≡ done (last_end end ms, gs))
        × (map first.from_iter gs ≡ map some (map (λ (m : MatchFind Rng). m.as_match) ms))
  unfolding all_groups groups last_end
  all_groups-last_end end [] [] h = ([], refl, refl)
  all_groups-last_end end ((some m ∷ g) ∷ cs) (m' ∷ ms) (same, h) =
      let (gs, ran, heads) = all_groups-last_end m.end cs ms h in
      ((m.as_match ∷ present g) ∷ gs, rw (ran, same) refl, rw (heads, same) refl)
  all_groups-last_end end [] (m' ∷ ms) h = elim h [ ]
  all_groups-last_end end ([] ∷ cs) ms h = elim h [ ]
  all_groups-last_end end ((none ∷ g) ∷ cs) ms h = elim h [ ]
  all_groups-last_end end ((some m ∷ g) ∷ cs) [] h = elim h [ ]

take-all : {A B : Type 0} (f : A → B) (xs : List A) → take (length (map f xs)) xs ≡ xs
take-all f [] = refl
take-all f (x ∷ xs) = ap (λ ys. x ∷ ys) (take-all f xs)

take-length : {A : Type 0} (xs : List A) → take (length xs) xs ≡ xs
take-length [] = refl
take-length (x ∷ xs) = ap (λ ys. x ∷ ys) (take-length xs)

map-constant :
    {A B X E : Type 0} (f : A → B) (value : A) (r : ParseResult X E)
    → ParseResult.map (λ _. f value) r ≡ ParseResult.map f (ParseResult.map (λ _. value) r)
unfolding ParseResult.map
map-constant f value (commit_ok _) = refl
map-constant f value (peek_ok _) = refl
map-constant f value (commit_err _) = refl
map-constant f value (peek_err _) = refl

module _ (R : RangeStream) (regex : Regex R.stream.Range) where
  given-take_to :
      {A B : Type 0} (f : A → B) (end : ℕ) (value : A) (input : R.stream.Input)
      → take_to R regex end (f value) input ≡ given R f (take_to R regex end value input)
  unfolding take_to
  given-take_to f end value input =
      bind_then ((Range.take R end).parse_lazy input) _ _ _
        (λ x. ap (λ r. done (r, x.1)) (map-constant f value x.0))

  -- Where the crate gives the groups of its matches, `captures` does what `find` does, and its first
  -- group is the match.
  pub captures-find :
      (input : R.stream.Input)
      → GroupsOf (regex.captures_iter (R.range input)) (regex.find_iter (R.range input))
      → (captures R regex first).parse_lazy input ≡ given R some ((find R regex).parse_lazy input)
  unfolding captures find captures_of all_groups groups find_iter last_end first_found
  captures-find input =
      by_cases (regex.captures_iter (R.range input)) (regex.find_iter (R.range input))
    where
      by_cases :
          (cs : List (List (Option (MatchFind R.stream.Range))))
          (ms : List (MatchFind R.stream.Range))
          → GroupsOf cs ms
          → (captures_of first first 1 cs >>= λ found. first_found R regex found input)
            ≡ given R some (first_found R regex (find_iter first ms) input)
      by_cases [] [] h = refl
      by_cases ((some m ∷ g) ∷ cs) (m' ∷ ms) (same, h) =
          rw same (given-take_to some m'.end m'.as_match input)
      by_cases [] (m' ∷ ms) h = elim h [ ]
      by_cases ([] ∷ cs) ms h = elim h [ ]
      by_cases ((none ∷ g) ∷ cs) ms h = elim h [ ]
      by_cases ((some m ∷ g) ∷ cs) [] h = elim h [ ]

  -- Where the crate gives the groups of its matches, `captures_many` does what `find_many` does: the
  -- first groups are the matches, and the result, the commitment and the input that is left are the same.
  pub captures_many-find_many :
      (input : R.stream.Input)
      → GroupsOf (regex.captures_iter (R.range input)) (regex.find_iter (R.range input))
      → (captures_many R regex first (λ gs. gs)).parse_lazy input
        ≡ given R (map some) ((find_many R regex vec).parse_lazy input)
  unfolding captures_many find_many captures_of find_iter
  captures_many-find_many input h =
      let cs = regex.captures_iter (R.range input) in
      let ms = regex.find_iter (R.range input) in
      let (gs, ran, heads) = all_groups-last_end 0 cs ms h in
      rw (take-length cs, ran, heads, take-all (λ (m : MatchFind R.stream.Range). m.as_match) ms)
        (given-take_to (map some) (last_end 0 ms)
          (map (λ (m : MatchFind R.stream.Range). m.as_match) ms) input)
