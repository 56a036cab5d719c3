-- ===== src/Parser/Tests.antt =====
-- The theorems on parsers, applied to slices of numbers.
use combine.Prelude.{
  ◌==◌, Safe, some, none, ℕ, ◌<◌, ◌≡◌, refl, Bool, true, false, List, [], ◌∷◌, some, none, done,
  ltb, ◌+◌, if◌then◌else◌, arith, length,
}
use combine.Error.Types.{ParseResult, commit_ok, peek_ok, commit_err, peek_err}
use combine.Error.ParseResult.{is_ok}
use combine.Error.Unexpected.{UnexpectedParse, eoi, unexpected}
use combine.Stream.Core.{Stream, IsResettable, IsComplete}
use combine.Stream.Slice.{Slice, slice_stream, uncons}
use combine.Parser.Core.{Step, Parser, ParseMode, first_mode, partial_mode, parse_mode}
use combine.Parser.Core.Fresh.{parse_fresh}
use combine.Parser.Token.{satisfy, satisfy_impl, satisfied, keep_if}
use combine.Parser.Combinator.{look_ahead, not_followed_by, attempt}
use combine.Parser.Combinator.Input.{look_ahead-keeps_input, not_followed_by-negates}
use combine.Parser.Choice.{choice, or}
use combine.Parser.Choice.First.{FailsPeek, Decides, choice-first, choice-none}
use combine.Parser.Choice.Attempt.{attempt-FailsPeek, or-attempt}
use combine.Parser.Sequence.Build.{with}
use combine.Parser.Sequence.Tuple.{cons, nil, fresh, tuple_step}
use combine.Parser.Sequence.Safe.{NeverPanics, tuple_step-Safe}
use combine.Parser.Repeat.Iter.{vec}
use combine.Parser.Repeat.SepBy.{sep_by1_step, SepBy1State}
use combine.Parser.Repeat.SepBy.Resume.{sep_by1_step-parsed_one}
use combine.Parser.Repeat.Many.{many}
use combine.Parser.Repeat.Many.Ends.{Consumes, many-ends}
use combine.Parser.Repeat.Many.Slice.{many-satisfy, behind, is_nonempty}

abbrev numbers : Stream
numbers = slice_stream ℕ 4

abbrev small : ℕ → Bool
small x = ltb x 5

abbrev big : ℕ → Bool
big x = ltb 5 x

abbrev at : ℕ → List ℕ → Slice ℕ
at pointer items = record { pointer = pointer; items = items }

abbrev low : Parser numbers ℕ
low = satisfy numbers small

abbrev high : Parser numbers ℕ
high = satisfy numbers big

numbers-IsResettable : IsResettable numbers
numbers-IsResettable before now = refl

numbers-IsComplete : IsComplete numbers
numbers-IsComplete input = refl

low-high : FailsPeek (at 100 (7 ∷ 1 ∷ [])) low
unfolding satisfy parse_fresh uncons
low-high = (_, _, refl)

high-high : parse_fresh high (at 100 (7 ∷ 1 ∷ [])) ≡ done (commit_ok 7, at 104 (1 ∷ []))
unfolding satisfy parse_fresh uncons
high-high = refl

low_two : parse_fresh (with low low) (at 100 (1 ∷ 7 ∷ [])) ≡ done (commit_err unexpected, at 108 [])
unfolding satisfy parse_fresh uncons with combine.Parser.Sequence.Errors.saturating_add
    combine.Error.Unexpected.unexpected_parse_error
low_two = refl

many-satisfy_example :
    parse_fresh (many (vec ℕ) 9 low) (at 100 (1 ∷ 2 ∷ 7 ∷ []))
    ≡ done (commit_ok (1 ∷ 2 ∷ []), at 108 (7 ∷ []))
unfolding behind is_nonempty
many-satisfy_example = many-satisfy 4 small 9 (at 100 (1 ∷ 2 ∷ 7 ∷ [])) (omega arith)

choice-first_example :
    parse_fresh (choice (low ∷ high ∷ low ∷ [])) (at 100 (7 ∷ 1 ∷ []))
    ≡ done (commit_ok 7, at 104 (1 ∷ []))
choice-first_example =
    choice-first {S = numbers} numbers-IsResettable (low ∷ []) high (low ∷ []) (at 100 (7 ∷ 1 ∷ []))
      (at 104 (1 ∷ [])) (commit_ok 7) tt (low-high, tt) high-high

choice-none_example :
    (e : _) × (parse_fresh (choice (low ∷ low ∷ [])) (at 100 (7 ∷ 1 ∷ []))
      ≡ done (peek_err e, at 100 (7 ∷ 1 ∷ [])))
choice-none_example =
    choice-none {S = numbers} numbers-IsResettable low (low ∷ []) (at 100 (7 ∷ 1 ∷ []))
      (low-high, (low-high, tt))

attempt-FailsPeek_example : FailsPeek (at 100 (1 ∷ 7 ∷ [])) (attempt (with low low))
unfolding with is_ok
attempt-FailsPeek_example =
    attempt-FailsPeek {S = numbers} numbers-IsResettable numbers-IsComplete (with low low) refl
      (at 100 (1 ∷ 7 ∷ [])) (at 108 []) (commit_err unexpected) refl low_two

low_one : parse_fresh low (at 100 (1 ∷ 7 ∷ [])) ≡ done (commit_ok 1, at 104 (7 ∷ []))
unfolding satisfy parse_fresh uncons
low_one = refl

or-attempt_example :
    parse_fresh (or (attempt (with low low)) low) (at 100 (1 ∷ 7 ∷ []))
    ≡ done (commit_ok 1, at 104 (7 ∷ []))
unfolding with is_ok
or-attempt_example =
    or-attempt {S = numbers} numbers-IsResettable numbers-IsComplete (with low low) low refl
      (at 100 (1 ∷ 7 ∷ [])) (at 108 []) (at 104 (7 ∷ [])) (commit_err unexpected) (commit_ok 1) refl
      tt low_two low_one

low_lazy : low.parse_lazy (at 100 (1 ∷ 7 ∷ [])) ≡ done (commit_ok 1, at 104 (7 ∷ []))
unfolding satisfy uncons
low_lazy = refl

look_ahead-keeps_input_example :
    (s : ParseResult ℕ UnexpectedParse) × ((look_ahead low).parse_lazy (at 100 (1 ∷ 7 ∷ []))
      ≡ done (s, at 100 (1 ∷ 7 ∷ [])))
    × (s ≡ peek_ok 1)
look_ahead-keeps_input_example =
    look_ahead-keeps_input {S = numbers} numbers-IsResettable low (at 100 (1 ∷ 7 ∷ []))
      (at 104 (7 ∷ [])) (commit_ok 1) low_lazy

not_followed_by-negates_example :
    (s : ParseResult (Unit {0}) UnexpectedParse) × (parse_fresh
        (not_followed_by low)
        (at 100 (1 ∷ 7 ∷ []))
      ≡ done (s, at 100 (1 ∷ 7 ∷ [])))
    × (is_ok s ≡ false)
unfolding is_ok
not_followed_by-negates_example =
    not_followed_by-negates {S = numbers} numbers-IsResettable low (at 100 (1 ∷ 7 ∷ []))
      (at 104 (7 ∷ [])) (commit_ok 1) low_one

remaining : Slice ℕ → ℕ
remaining s = length s.items

-- One parse of `low`, whatever the mode: it reads a small number, or fails.
low-parse_mode :
    (mode : ParseMode) (s : Slice ℕ)
    → parse_mode low mode s low.default
      ≡ done (
        (satisfy_impl numbers (keep_if numbers small) s).0,
        (satisfy_impl numbers (keep_if numbers small) s).1,
        low.default,
      )
unfolding satisfy parse_mode
low-parse_mode first_mode s = refl
low-parse_mode (partial_mode true) s = refl
low-parse_mode (partial_mode false) s = refl

low-smaller :
    (pointer : ℕ) (items : List ℕ)
    → is_ok (satisfy_impl numbers (keep_if numbers small) (at pointer items)).0 ≡ true
    → remaining (satisfy_impl numbers (keep_if numbers small) (at pointer items)).1 < length items
unfolding remaining satisfy_impl uncons is_ok keep_if satisfied
low-smaller pointer [] = λ h. absurd (nothing-ok h)
  where
    nothing-ok : false ≡ true → ⊥
    nothing-ok h = cc
low-smaller pointer (x ∷ items) = go (small x)
  where
    go :
        (b : Bool)
        → is_ok (satisfied numbers pointer (at (pointer + 4) items) (if b then some x else none)).0
          ≡ true
        → remaining
            (satisfied numbers pointer (at (pointer + 4) items) (if b then some x else none)).1
          < length (x ∷ items)
    go true h = omega arith
    go false h = cc

low-Consumes : Consumes {S = numbers} remaining low
unfolding remaining parse_mode satisfy_impl satisfy
low-Consumes mode input st =
    (_, _, low.default, low-parse_mode mode input, low-smaller input.pointer input.items)

many-ends_example :
    (r : ParseResult (List ℕ) UnexpectedParse) × (input' : Slice ℕ) × (parse_fresh
        (many (vec ℕ) 4 low)
        (at 100 (1 ∷ 2 ∷ 7 ∷ []))
      ≡ done (r, input'))
    × Decides r
unfolding remaining
many-ends_example =
    many-ends {S = numbers} remaining low (vec ℕ) 4 (at 100 (1 ∷ 2 ∷ 7 ∷ [])) low-Consumes
      (omega arith)

low-NeverPanics : NeverPanics low
unfolding satisfy parse_mode
low-NeverPanics first_mode input st = tt
low-NeverPanics (partial_mode true) input st = tt
low-NeverPanics (partial_mode false) input st = tt

-- Two parsers, resumed in a state where the first has its value and the second has none.
tuple_step-Safe_example :
    Safe
      (λ _. Unit {0})
      (tuple_step low (cons low nil) (partial_mode false) (at 104 (2 ∷ [])) (record {
        offset = 2;
        states = (record { value = some 1; state = low.default }, (fresh low.default, tt));
      }))
tuple_step-Safe_example =
    tuple_step-Safe low (cons low nil) (partial_mode false) (at 104 (2 ∷ []))
      (record {
        offset = 2;
        states = (record { value = some 1; state = low.default }, (fresh low.default, tt));
      })
      low-NeverPanics (low-NeverPanics, tt)

-- Small numbers, separated by nines.
abbrev nine : Parser numbers ℕ
nine = satisfy numbers (λ x. x == 9)

abbrev start : SepBy1State (List ℕ) (with nine low).PartialState
start = record { parsed_one = none; elements = []; child = (with nine low).default }

-- Three small numbers with nines between them, and a nine with no number behind it.
after_nine :
    (x : Step numbers (List ℕ) (SepBy1State (List ℕ) (with nine low).PartialState)) × (sep_by1_step
        (vec ℕ)
        4
        low
        nine
        first_mode
        (at 100 (1 ∷ 9 ∷ 2 ∷ 9 ∷ []))
        start
      ≡ done x)
unfolding sep_by1_step with satisfy uncons
after_nine = (_, refl)

sep_by1_step-parsed_one_example : after_nine.0.2.parsed_one ≡ none
sep_by1_step-parsed_one_example =
    sep_by1_step-parsed_one (vec ℕ) 4 low nine first_mode (at 100 (1 ∷ 9 ∷ 2 ∷ 9 ∷ []))
      after_nine.0.1 start after_nine.0.2 after_nine.0.0 refl after_nine.1
