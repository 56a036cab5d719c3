-- ===== src/Parser/Choice/Tests.antt =====
-- Runs of `take_until` and of a choice over an array, over slices of numbers.
use combine.Prelude.{ℕ, ◌≡◌, refl, List, [], ◌∷◌, done, ◌>>=◌, Run, ◌==◌}
use combine.Error.Types.{ParseResult, commit_ok, peek_err}
use combine.Error.Unexpected.{UnexpectedParse, eoi, unexpected_parse_error}
use combine.Stream.Core.{Stream}
use combine.Stream.Slice.{Slice, slice_stream, uncons}
use combine.Stream.Range.Wrappers.{partial_stream}
use combine.Parser.Core.{drop_state, Parser, resume_mode}
use combine.Parser.Core.Fresh.{parse_fresh}
use combine.Parser.Token.{satisfy}
use combine.Parser.Tokens.{value}
use combine.Parser.Sequence.Build.{pair}
use combine.Parser.Repeat.Iter.{vec}
use combine.Parser.Repeat.Until.{take_until}
use combine.Parser.Combinator.Wrap.{any_partial_state}
use combine.Parser.Combinator.Hidden.{run_twice, any_partial_state-resumes}
use combine.Parser.Choice.Array.{entry, choice_array}

abbrev numbers : Stream
numbers = slice_stream ℕ 4

abbrev partial_numbers : Stream
partial_numbers = partial_stream numbers

abbrev at : ℕ → List ℕ → Slice ℕ
at pointer items = record { pointer = pointer; items = items }

abbrev is : (S : Stream) → (S.Token → ℕ) → ℕ → Parser S S.Token
is S code n = satisfy S (λ x. code x == n)

-- `take_until` fails without having committed, at the end of the tokens that it has read.
peek_err-take_until :
    parse_fresh (take_until (vec ℕ) (is numbers (λ x. x) 7) 9) (at 100 (1 ∷ 2 ∷ []))
    ≡ done (peek_err (record { error = eoi; offset = 1 }), at 108 [])
unfolding take_until satisfy parse_fresh uncons combine.Stream.Ops.uncons unexpected_parse_error
peek_err-take_until = refl

abbrev seven_eight : Parser partial_numbers (ℕ × (ℕ × Unit {0}))
seven_eight = pair (is partial_numbers (λ x. x) 7) (is partial_numbers (λ x. x) 8)

abbrev until_seven_eight : Parser partial_numbers (List ℕ)
until_seven_eight = take_until (vec ℕ) seven_eight 9

-- A run over the first numbers that stops there, and is resumed over all that is left.
abbrev in_two_parts :
    {A : Type 0}
    → Parser partial_numbers A
    → List ℕ
    → List ℕ
    → Run (ParseResult A UnexpectedParse × Slice ℕ)
in_two_parts p first second = do
  (_, input, st) ← p.parse_mode_impl resume_mode (at 100 first) p.default
  (r, input', _) ← p.parse_mode_impl resume_mode (at input.pointer second) st
  done (r, input')

-- The same, over one part of the input.
abbrev in_one_part :
    {A : Type 0} → Parser partial_numbers A → List ℕ → Run (ParseResult A UnexpectedParse × Slice ℕ)
in_one_part p items = do
  (r, input, _) ← p.parse_mode_impl resume_mode (at 100 items) p.default
  done (r, input)

-- The end is at 104. Cut inside the end, `take_until` resumes the end's parser, which has read a part
-- of the end, from the start of the end: it passes the 7, and ends at 108.
take_until-cut :
    in_two_parts until_seven_eight (1 ∷ 7 ∷ []) (7 ∷ 8 ∷ [])
    ≡ done (commit_ok (1 ∷ 7 ∷ []), at 108 (8 ∷ []))
unfolding take_until satisfy parse_fresh uncons combine.Stream.Ops.uncons unexpected_parse_error
    pair combine.Parser.Sequence.Errors.saturating_add
take_until-cut = refl

take_until-uncut :
    parse_fresh until_seven_eight (at 100 (1 ∷ 7 ∷ 8 ∷ []))
    ≡ done (commit_ok (1 ∷ []), at 104 (7 ∷ 8 ∷ []))
unfolding take_until satisfy parse_fresh uncons combine.Stream.Ops.uncons unexpected_parse_error
    pair combine.Parser.Sequence.Errors.saturating_add
take_until-uncut = refl

-- `(value(a), satisfy(b))`.
abbrev then_is : ℕ → ℕ → Parser partial_numbers (ℕ × (ℕ × Unit {0}))
then_is a b = pair (value partial_numbers a) (is partial_numbers (λ x. x) b)

one_of_two : Parser partial_numbers (ℕ × (ℕ × Unit {0}))
unfolding pair satisfy value
one_of_two =
    choice_array "parser choice is empty" (then_is 1 8).default
      (entry (then_is 1 8) ∷ entry (then_is 2 9) ∷ [])

-- The second parser of the array succeeds, with the value of the first parser's first part.
choice_array-mixed : in_one_part one_of_two (9 ∷ []) ≡ done (commit_ok (1, (9, tt)), at 104 [])
unfolding satisfy uncons combine.Stream.Ops.uncons unexpected_parse_error pair value choice_array
    one_of_two combine.Parser.Sequence.Errors.saturating_add
choice_array-mixed = refl

choice_array-first :
    parse_fresh one_of_two (at 100 (9 ∷ [])) ≡ done (commit_ok (2, (9, tt)), at 104 [])
unfolding satisfy uncons combine.Stream.Ops.uncons unexpected_parse_error pair value choice_array
    one_of_two combine.Parser.Sequence.Errors.saturating_add parse_fresh
choice_array-first = refl

-- A parser of two numbers stops after the first, and is resumed over the second.
any_partial_state-resumes_example :
    (run_twice
        (any_partial_state seven_eight)
        resume_mode
        (at 100 (7 ∷ []))
        (λ _. at 104 (8 ∷ []))
        (any_partial_state seven_eight).default
      >>= λ r. done (drop_state partial_numbers r))
    ≡ (run_twice seven_eight resume_mode
          (at 100 (7 ∷ []))
          (λ _. at 104 (8 ∷ []))
          seven_eight.default
        >>= λ r. done (drop_state partial_numbers r))
unfolding satisfy uncons combine.Stream.Ops.uncons unexpected_parse_error pair
    combine.Parser.Sequence.Errors.saturating_add
any_partial_state-resumes_example =
    any_partial_state-resumes {S = partial_numbers} seven_eight (at 100 (7 ∷ [])) (at 104 [])
      (λ _. at 104 (8 ∷ [])) eoi _ refl
