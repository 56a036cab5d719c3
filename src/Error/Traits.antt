-- ===== src/Error/Traits.antt =====
-- src/error.rs: the traits `StreamError` and `ParseError` as interfaces, and the methods that they
-- provide. A value of the trait's type is a value of the type parameter; a `Display` value is the
-- text that it shows. `other` and `into_other` are left out: they box, or convert between, errors.
use combine.Prelude.{Bool, String}
use combine.Error.Types.{Tracked, Info, token, range, static, format}

-- `trait StreamError<Item, Range>`.
pub record StreamError (T R E : Type 0) : Type 0 where
  pub unexpected_token : T → E
  pub unexpected_range : R → E
  pub unexpected_format : String → E
  pub unexpected_static_message : String → E
  pub expected_token : T → E
  pub expected_range : R → E
  pub expected_format : String → E
  pub expected_static_message : String → E
  pub message_token : T → E
  pub message_range : R → E
  pub message_format : String → E
  pub message_static_message : String → E
  pub end_of_input : E
  pub is_unexpected_end_of_input : E → Bool

module _ {T R E : Type 0} (se : StreamError T R E) where
  unfoldable pub unexpected : Info T R → E
  unexpected (token b) = se.unexpected_token b
  unexpected (range b) = se.unexpected_range b
  unexpected (static b) = se.unexpected_static_message b
  unexpected (format b) = se.unexpected_format b

  unfoldable pub expected : Info T R → E
  expected (token b) = se.expected_token b
  expected (range b) = se.expected_range b
  expected (static b) = se.expected_static_message b
  expected (format b) = se.expected_format b

  unfoldable pub message : Info T R → E
  message (token b) = se.message_token b
  message (range b) = se.message_range b
  message (static b) = se.message_static_message b
  message (format b) = se.message_format b

-- `trait ParseError<Item, Range, Position>`; `&mut self` is an argument and a result.
pub record ParseError (T R P SE E : Type 0) : Type 0 where
  pub stream_error : StreamError T R SE
  pub empty : P → E
  pub from_error : P → SE → E
  pub set_position : P → E → E
  pub merge : E → E → E
  pub add : SE → E → E
  pub set_expected : Tracked E → SE → (Tracked E → Tracked E) → Tracked E
  pub clear_expected : E → E
  pub is_unexpected_end_of_input : E → Bool

module _ {T R P SE E : Type 0} (pe : ParseError T R P SE E) where
  unfoldable pub add_expected : Info T R → E → E
  unfolding expected
  add_expected info = pe.add (expected pe.stream_error info)

  unfoldable pub add_unexpected : Info T R → E → E
  unfolding unexpected
  add_unexpected info = pe.add (unexpected pe.stream_error info)

  unfoldable pub add_message : Info T R → E → E
  unfolding message
  add_message info = pe.add (message pe.stream_error info)
