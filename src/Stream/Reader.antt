-- ===== src/Stream/Reader.antt =====
-- src/stream/read.rs: the bytes of a reader as a stream, and its errors. `std::io::Bytes` is its `next`.
use combine.Prelude.{ℕ, Bool, true, false, Option, some, none, Result, ok, err}
use combine.Error.Types.{Tracked}
use combine.Error.Traits.{StreamError, ParseError}

-- `Error`, over the errors of the reader.
pub data ReadError (E : Type 0) : Type 0 where
  unexpected : ReadError E
  end_of_input : ReadError E
  io : E → ReadError E

module _ {E : Type 0} where
  -- `PartialEq`: two errors of the reader are never equal.
  unfoldable pub eq_error : ReadError E → ReadError E → Bool
  eq_error unexpected unexpected = true
  eq_error end_of_input end_of_input = true
  eq_error _ _ = false

  -- `impl StreamError<Item, Range> for Error`; a static message is a formatted one.
  unfoldable pub read_stream_error : (T R : Type 0) → StreamError T R (ReadError E)
  unfolding eq_error
  read_stream_error T R = record {
    unexpected_token = λ _. unexpected;
    unexpected_range = λ _. unexpected;
    unexpected_format = λ _. unexpected;
    unexpected_static_message = λ _. unexpected;
    expected_token = λ _. unexpected;
    expected_range = λ _. unexpected;
    expected_format = λ _. unexpected;
    expected_static_message = λ _. unexpected;
    message_token = λ _. unexpected;
    message_range = λ _. unexpected;
    message_format = λ _. unexpected;
    message_static_message = λ _. unexpected;
    end_of_input = end_of_input;
    is_unexpected_end_of_input = λ e. eq_error e end_of_input;
  }

  -- `StreamError::into_other`; `other` is the other error's own conversion of an error of the reader.
  unfoldable pub into_other : {T R E' : Type 0} → StreamError T R E' → (E → E') → ReadError E → E'
  into_other se other unexpected = se.unexpected_static_message "parse"
  into_other se other end_of_input = se.end_of_input
  into_other se other (io e) = other e

  -- `ParseError::into_other`, at the default position.
  unfoldable pub parse_into_other :
      {T R P SE E' : Type 0} → ParseError T R P SE E' → P → (E → SE) → ReadError E → E'
  unfolding into_other
  parse_into_other pe position other e = pe.from_error position (into_other pe.stream_error other e)

  -- `ParseError::add`: an end of input that was seen is kept.
  unfoldable pub add : ReadError E → ReadError E → ReadError E
  add e end_of_input = end_of_input
  add e unexpected = e
  add e (io _) = e

  unfoldable pub set_expected :
      Tracked (ReadError E)
      → ReadError E
      → (Tracked (ReadError E) → Tracked (ReadError E))
      → Tracked (ReadError E)
  set_expected self info f = record { error = info; offset = (f self).offset }

  -- `impl ParseError<Item, Range, Position> for Error`.
  unfoldable pub read_parse_error : (T R P : Type 0) → ParseError T R P (ReadError E) (ReadError E)
  unfolding read_stream_error add set_expected eq_error
  read_parse_error T R P = record {
    stream_error = read_stream_error T R;
    empty = λ _. unexpected;
    from_error = λ _ e. e;
    set_position = λ _ e. e;
    merge = λ self other. other;
    add = add;
    set_expected = set_expected;
    clear_expected = λ e. e;
    is_unexpected_end_of_input = λ e. eq_error e end_of_input;
  }

  -- `uncons`.
  byte_or_error : {I : Type 0} → Option (Result ℕ E) × I → Result ℕ (ReadError E) × I
  byte_or_error (some (ok b), i) = (ok b, i)
  byte_or_error (some (err e), i) = (err (io e), i)
  byte_or_error (none, i) = (err end_of_input, i)

  unfoldable pub uncons :
      {I : Type 0} → (I → Option (Result ℕ E) × I) → I → Result ℕ (ReadError E) × I
  unfolding byte_or_error
  uncons next i = byte_or_error (next i)
