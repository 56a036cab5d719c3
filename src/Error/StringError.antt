-- ===== src/Error/StringError.antt =====
-- src/error.rs: `StringStreamError`, the error of string streams, with its implementations of the
-- error traits.
use text.Mathlib.Text.{◌==◌ as str_eq}
use combine.Prelude.{Bool, true, false, String, if◌then◌else◌}
use combine.Error.Types.{Tracked}
use combine.Error.Traits.{StreamError, ParseError}

pub data StringStreamError : Type 0 where
  unexpected_parse eoi character_boundary : StringStreamError

abbrev pub char_boundary_error_message : String
char_boundary_error_message = "unexpected slice on character boundary"

unfoldable pub is_eoi : StringStreamError → Bool
is_eoi eoi = true
is_eoi unexpected_parse = false
is_eoi character_boundary = false

unfoldable pub message_static_message : String → StringStreamError
message_static_message msg =
    if str_eq msg char_boundary_error_message then character_boundary else unexpected_parse

-- `impl StreamError<Item, Range> for StringStreamError`.
unfoldable pub string_stream_error : (T R : Type 0) → StreamError T R StringStreamError
unfolding is_eoi message_static_message
string_stream_error T R = record {
  unexpected_token = λ _. unexpected_parse;
  unexpected_range = λ _. unexpected_parse;
  unexpected_format = λ _. unexpected_parse;
  unexpected_static_message = λ _. unexpected_parse;
  expected_token = λ _. unexpected_parse;
  expected_range = λ _. unexpected_parse;
  expected_format = λ _. unexpected_parse;
  expected_static_message = λ _. unexpected_parse;
  message_token = λ _. unexpected_parse;
  message_range = λ _. unexpected_parse;
  message_format = λ _. unexpected_parse;
  message_static_message = message_static_message;
  end_of_input = eoi;
  is_unexpected_end_of_input = is_eoi;
}

-- `ParseError::add`: an end of input that was seen is kept.
unfoldable pub add : StringStreamError → StringStreamError → StringStreamError
add e eoi = eoi
add e unexpected_parse = e
add e character_boundary = e

unfoldable pub set_expected :
    Tracked StringStreamError
    → StringStreamError
    → (Tracked StringStreamError → Tracked StringStreamError)
    → Tracked StringStreamError
set_expected self info f = record { error = info; offset = (f self).offset }

-- `impl ParseError<Item, Range, Position> for StringStreamError`.
unfoldable pub string_parse_error :
    (T R P : Type 0) → ParseError T R P StringStreamError StringStreamError
unfolding string_stream_error add set_expected
string_parse_error T R P = record {
  stream_error = string_stream_error T R;
  empty = λ _. unexpected_parse;
  from_error = λ _ e. e;
  set_position = λ _ e. e;
  merge = λ self other. other;
  add = add;
  set_expected = set_expected;
  clear_expected = λ e. e;
  is_unexpected_end_of_input = is_eoi;
}
