-- ===== src/Parser/Combinator/Tests.antt =====
-- Boxed parsers, run on a slice of numbers with errors that list what was expected.
use combine.Prelude.{ℕ, ◌≡◌, refl, Bool, List, [], ◌∷◌, done, compare, ◌==◌, map}
use combine.Error.Types.{peek_err, tracked}
use combine.Stream.Core.{Stream}
use combine.Stream.Slice.{Slice, slice_stream, uncons}
use combine.Stream.Easy.{
  token_info, unexpected_error, end_of_input, easy_parse_error, easy_stream_error, merge_errors,
  add_error, set_expected,
}
use combine.Stream.Easy.Convert.{easy_stream}
use combine.Parser.Core.{Parser}
use combine.Parser.Core.Forward.{boxed}
use combine.Parser.Combinator.{attempt}
use combine.Parser.Combinator.Boxed.{attempt-boxed}
use combine.Parser.Token.{satisfy}
use combine.Parser.Sequence.Build.{pair}

abbrev same_range : Slice ℕ → Slice ℕ → Bool
same_range a b = a.pointer == b.pointer

abbrev numbers : Stream
numbers =
    easy_stream {X = Unit {0}} (slice_stream ℕ 4) compare ◌==◌ same_range
      (λ _. end_of_input ◌==◌ same_range) λ _. record { position = 0; errors = [] }

abbrev at : ℕ → List ℕ → numbers.Input
unfolding easy_stream
at pointer items = record { pointer = pointer; items = items }

abbrev one_two : Parser numbers (ℕ × (ℕ × Unit {0}))
unfolding easy_stream
one_two = pair (satisfy numbers (λ x. x == 1)) (satisfy numbers (λ x. x == 2))

abbrev errors : List ℕ → numbers.Error
unfolding easy_stream
errors tokens = record {
  position = 104;
  errors = map (λ x. unexpected_error (token_info x)) tokens;
}

attempt_errors :
    (attempt one_two).parse_stream (at 100 (1 ∷ 3 ∷ []))
    ≡ done (peek_err (tracked (errors (3 ∷ []))), at 108 [])
unfolding easy_stream attempt pair satisfy uncons combine.Stream.Ops.uncons easy_parse_error
    easy_stream_error merge_errors add_error set_expected
    combine.Parser.Sequence.Errors.saturating_add
attempt_errors = refl

-- The token at the start is reported too, at the place of the error.
attempt-boxed_example :
    (boxed (attempt one_two)).parse_stream (at 100 (1 ∷ 3 ∷ []))
    ≡ done (peek_err (record { error = errors (3 ∷ 1 ∷ []); offset = 0 }), at 100 (1 ∷ 3 ∷ []))
unfolding easy_stream attempt pair satisfy uncons combine.Stream.Ops.uncons easy_parse_error
    easy_stream_error merge_errors add_error set_expected
    combine.Parser.Sequence.Errors.saturating_add
attempt-boxed_example =
    attempt-boxed {S = numbers} one_two (at 100 (1 ∷ 3 ∷ [])) (at 108 []) (at 104 (3 ∷ []))
      (tracked (errors (3 ∷ []))) 1 (λ before now. refl) refl attempt_errors refl
