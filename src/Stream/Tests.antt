-- ===== src/Stream/Tests.antt =====
-- The theorems on slices, applied to slices of numbers.
use combine.Error.Unexpected.{UnexpectedParse, eoi, unexpected_parse_error}
use combine.Stream.Buffered.{Source, Buffered, new, uncons, reset}
use combine.Stream.Iterator.{positioned_iterator}
use combine.Stream.Positioned.{index_positioner}
use combine.Stream.Buffered.Window.{Holds, reset-replays}
use combine.Stream.Buffered.Invariant.{Reads, uncons-Reads}
use combine.Stream.Position.{newline, source_start, update_range}
use combine.Stream.Position.Lines.{newlines, IsLine, update_range-lines}
use combine.Stream.Easy.{EasyError, expected_error, token_info, Errors, merge_errors}
use combine.Prelude.{
  length, Option, some, none, Result, ok, err, ◌>>=◌, refl, ◌==◌, compare, ◌++◌, ℕ, ◌≡◌, Bool, List,
  [], ◌∷◌, done, ltb, arith,
}
use combine.Stream.Slice.{slice_uncons_while}
use combine.Stream.Slice.While.{slice_uncons_while-eq-take_while}

abbrev small : ℕ → Bool
small x = ltb x 5

-- Nine small items, one more than the unrolled loop reads at once, and a large one.
abbrev items : List ℕ
items = 1 ∷ 2 ∷ 3 ∷ 4 ∷ 1 ∷ 2 ∷ 3 ∷ 4 ∷ 0 ∷ 7 ∷ 1 ∷ []

slice_uncons_while-eq-take_while_example :
    slice_uncons_while small 4 12 (record { pointer = 100; items = items }) 0
    ≡ done (
      record { pointer = 100; items = 1 ∷ 2 ∷ 3 ∷ 4 ∷ 1 ∷ 2 ∷ 3 ∷ 4 ∷ 0 ∷ [] },
      record { pointer = 136; items = 7 ∷ 1 ∷ [] },
    )
slice_uncons_while-eq-take_while_example =
    slice_uncons_while-eq-take_while small 4 12 (record { pointer = 100; items = items })
      (omega arith)

-- Errors at position 3 on tokens, ranges and positions that are numbers.
abbrev expected_number : ℕ → EasyError ℕ ℕ ℕ
expected_number n = expected_error (token_info n)

abbrev first : Errors ℕ ℕ ℕ ℕ
first = record { position = 3; errors = expected_number 1 ∷ expected_number 2 ∷ [] }

abbrev second : Errors ℕ ℕ ℕ ℕ
second = record { position = 3; errors = expected_number 2 ∷ expected_number 5 ∷ [] }

-- The merge of the two.
first-merged : merge_errors ◌==◌ ◌==◌ compare first second ≡ record {
  position = 3;
  errors = expected_number 1 ∷ expected_number 2 ∷ expected_number 5 ∷ [];
}
unfolding merge_errors
first-merged = refl

-- A stream over the items of a list, whose position is the number of items left.
pop : List ℕ → Result ℕ UnexpectedParse × List ℕ
pop [] = (err eoi, [])
pop (x ∷ xs) = (ok x, xs)

abbrev source : Source (List ℕ) ℕ ℕ UnexpectedParse
unfolding pop
source = record { uncons = pop; position = λ xs. length xs }

abbrev history : List (ℕ × ℕ)
history = (10, 4) ∷ (11, 3) ∷ (12, 2) ∷ []

-- Room for two items, three tokens read, and none taken back.
abbrev read_three : Buffered (List ℕ) ℕ ℕ
read_three = record {
  offset = 3;
  iter = 13 ∷ [];
  buffer_offset = 3;
  buffer = (11, 3) ∷ (12, 2) ∷ [];
  capacity = 2;
}

read_three-Holds : Holds history read_three
read_three-Holds = record {
  dropped = (10, 4) ∷ [];
  split = refl;
  counted = refl;
  behind = omega arith;
  bounded = omega arith;
  room = omega arith;
}

abbrev no_growth : ℕ → ℕ
no_growth n = n

reset-replays_example :
    (reset (unexpected_parse_error ℕ ℕ ℕ) source 1 read_three >>= λ x.
    uncons (unexpected_parse_error ℕ ℕ ℕ) source no_growth x.1)
    ≡ done (ok 11, record read_three { offset = 2 })
reset-replays_example =
    reset-replays (unexpected_parse_error ℕ ℕ ℕ) source history read_three no_growth 1 (11, 3)
      read_three-Holds (omega arith) refl

uncons-Reads_example :
    Reads
      (unexpected_parse_error ℕ ℕ ℕ)
      source
      history
      read_three
      (uncons (unexpected_parse_error ℕ ℕ ℕ) source no_growth read_three)
uncons-Reads_example =
    uncons-Reads (unexpected_parse_error ℕ ℕ ℕ) source history read_three no_growth read_three-Holds

bc-IsLine : IsLine (98 ∷ 99 ∷ [])
unfolding IsLine
bc-IsLine = (refl, (refl, tt))

-- Two lines, and two tokens of a third.
update_range-lines_example :
    update_range ((97 ∷ newline ∷ []) ++ newline ∷ 98 ∷ 99 ∷ []) source_start
    ≡ record { line = 3; column = 3 }
unfolding newlines
update_range-lines_example =
    update_range-lines (97 ∷ newline ∷ []) (98 ∷ 99 ∷ []) source_start bc-IsLine (omega arith)

abbrev list_next : List ℕ → Option ℕ × List ℕ
list_next [] = (none, [])
list_next (x ∷ xs) = (some x, xs)

-- A buffered stream over a positioned iterator keeps the token with its position.
uncons-positioned :
    uncons
      (unexpected_parse_error ℕ ℕ ℕ)
      (positioned_iterator list_next (index_positioner ℕ ℕ (λ _. 1)))
      no_growth
      (new (10 ∷ 11 ∷ [], 0) 2)
    ≡ done (
      ok 10,
      record {
        offset = 1;
        iter = (11 ∷ [], 1);
        buffer_offset = 1;
        buffer = (10, 0) ∷ [];
        capacity = 2;
      },
    )
unfolding uncons positioned_iterator new
uncons-positioned = refl
