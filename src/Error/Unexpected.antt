-- ===== src/Error/Unexpected.antt =====
-- src/error.rs: `UnexpectedParse`, the error of slice streams, with its implementations of the
-- error traits.
use combine.Prelude.{Bool, true, false}
use combine.Error.Types.{Tracked}
use combine.Error.Traits.{StreamError, ParseError}

pub data UnexpectedParse : Type 0 where
  eoi unexpected : UnexpectedParse

unfoldable pub is_eoi : UnexpectedParse → Bool
is_eoi eoi = true
is_eoi unexpected = false

-- `impl StreamError<Item, Range> for UnexpectedParse`.
unfoldable pub unexpected_stream_error : (T R : Type 0) → StreamError T R UnexpectedParse
unfolding is_eoi
unexpected_stream_error T R = record {
  unexpected_token = λ _. unexpected;
  unexpected_range = λ _. unexpected;
  unexpected_format = λ _. unexpected;
  unexpected_static_message = λ _. unexpected;
  expected_token = λ _. unexpected;
  expected_range = λ _. unexpected;
  expected_format = λ _. unexpected;
  expected_static_message = λ _. unexpected;
  message_token = λ _. unexpected;
  message_range = λ _. unexpected;
  message_format = λ _. unexpected;
  message_static_message = λ _. unexpected;
  end_of_input = eoi;
  is_unexpected_end_of_input = is_eoi;
}

-- `ParseError::add`: an end of input that was seen is kept.
unfoldable pub add : UnexpectedParse → UnexpectedParse → UnexpectedParse
add e eoi = eoi
add e unexpected = e

unfoldable pub set_expected :
    Tracked UnexpectedParse
    → UnexpectedParse
    → (Tracked UnexpectedParse → Tracked UnexpectedParse)
    → Tracked UnexpectedParse
set_expected self info f = record { error = info; offset = (f self).offset }

-- `impl ParseError<Item, Range, Position> for UnexpectedParse`.
unfoldable pub unexpected_parse_error :
    (T R P : Type 0) → ParseError T R P UnexpectedParse UnexpectedParse
unfolding unexpected_stream_error add set_expected
unexpected_parse_error T R P = record {
  stream_error = unexpected_stream_error T R;
  empty = λ _. unexpected;
  from_error = λ _ e. e;
  set_position = λ _ e. e;
  merge = λ self other. other;
  add = add;
  set_expected = set_expected;
  clear_expected = λ e. e;
  is_unexpected_end_of_input = is_eoi;
}
