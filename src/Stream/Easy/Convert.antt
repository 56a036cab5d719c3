-- ===== src/Stream/Easy/Convert.antt =====
-- src/stream/easy.rs: the maps over the tokens, ranges and positions of errors, the conversions into
-- other errors, and the stream whose errors are these. `show` is the text of a boxed error.
use combine.Prelude.{Bool, String, List, [], ◌∷◌, map, Option, some, none, Result, ok, err}
use Prim.Native.Nat.{Ordering}
use combine.Error.Traits.{StreamError, ParseError}
use combine.Stream.Core.{Stream}
use combine.Stream.Easy.{
  EasyInfo, token_info, range_info, owned, static_info, EasyError, unexpected_error, expected_error,
  message_error, other_error, Errors, easy_parse_error,
}

module _ {T R U : Type 0} (f : T → U) where
  unfoldable pub map_token_info : EasyInfo T R → EasyInfo U R
  map_token_info (token_info t) = token_info (f t)
  map_token_info (range_info r) = range_info r
  map_token_info (owned s) = owned s
  map_token_info (static_info x) = static_info x

  unfoldable pub map_token_error : {X : Type 0} → EasyError T R X → EasyError U R X
  unfolding map_token_info
  map_token_error (unexpected_error x) = unexpected_error (map_token_info x)
  map_token_error (expected_error x) = expected_error (map_token_info x)
  map_token_error (message_error x) = message_error (map_token_info x)
  map_token_error (other_error x) = other_error x

  unfoldable pub map_token : {X P : Type 0} → Errors T R X P → Errors U R X P
  unfolding map_token_error
  map_token self = record { position = self.position; errors = map map_token_error self.errors }

module _ {T R Q : Type 0} (f : R → Q) where
  unfoldable pub map_range_info : EasyInfo T R → EasyInfo T Q
  map_range_info (token_info t) = token_info t
  map_range_info (range_info r) = range_info (f r)
  map_range_info (owned s) = owned s
  map_range_info (static_info x) = static_info x

  unfoldable pub map_range_error : {X : Type 0} → EasyError T R X → EasyError T Q X
  unfolding map_range_info
  map_range_error (unexpected_error x) = unexpected_error (map_range_info x)
  map_range_error (expected_error x) = expected_error (map_range_info x)
  map_range_error (message_error x) = message_error (map_range_info x)
  map_range_error (other_error x) = other_error x

  unfoldable pub map_range : {X P : Type 0} → Errors T R X P → Errors T Q X P
  unfolding map_range_error
  map_range self = record { position = self.position; errors = map map_range_error self.errors }

unfoldable pub map_position : {T R X P Q : Type 0} → (P → Q) → Errors T R X P → Errors T R X Q
map_position f self = record { position = f self.position; errors = self.errors }

module _ {T R X : Type 0} (show : X → String) where
  -- `into_other` of `StreamError`: a message becomes an expectation.
  unfoldable pub stream_error_into_other : {E : Type 0} → StreamError T R E → EasyError T R X → E
  stream_error_into_other se (unexpected_error (token_info x)) = se.unexpected_token x
  stream_error_into_other se (unexpected_error (range_info x)) = se.unexpected_range x
  stream_error_into_other se (unexpected_error (static_info x)) = se.unexpected_static_message x
  stream_error_into_other se (unexpected_error (owned x)) = se.unexpected_format x
  stream_error_into_other se (expected_error (token_info x)) = se.expected_token x
  stream_error_into_other se (expected_error (range_info x)) = se.expected_range x
  stream_error_into_other se (expected_error (static_info x)) = se.expected_static_message x
  stream_error_into_other se (expected_error (owned x)) = se.expected_format x
  stream_error_into_other se (message_error (token_info x)) = se.expected_token x
  stream_error_into_other se (message_error (range_info x)) = se.expected_range x
  stream_error_into_other se (message_error (static_info x)) = se.expected_static_message x
  stream_error_into_other se (message_error (owned x)) = se.expected_format x
  stream_error_into_other se (other_error e) = se.message_format (show e)

  -- `self.errors.pop()`: the last error.
  last_error : List (EasyError T R X) → Option (EasyError T R X)
  last_error [] = none
  last_error (e ∷ es) = elim (last_error es) [ none ↦ some e | some l ↦ some l ]

  -- `into_other` of `ParseError`.
  unfoldable pub into_other : {P SE E : Type 0} → ParseError T R P SE E → Errors T R X P → E
  unfolding stream_error_into_other last_error
  into_other pe self = elim (last_error self.errors) [
    | none ↦ pe.empty self.position
    | some e ↦ pe.from_error self.position (stream_error_into_other pe.stream_error e)
  ]

-- The error of a result is converted.
abbrev pub convert : {A E F : Type 0} → (E → F) → Result A E → Result A F
convert f (ok x) = ok x
convert f (err e) = err (f e)

-- `easy::Stream`: the stream's errors become those of this file, by its own `into_other` of stream
-- errors and of errors.
module _ {X : Type 0} (S : Stream) (cmp : S.Position → S.Position → Ordering)
    (eq_token : S.Token → S.Token → Bool) (eq_range : S.Range → S.Range → Bool)
    (stream_into_other : S.StreamErrorFor → EasyError S.Token S.Range X)
    (error_into_other : S.Error → Errors S.Token S.Range X S.Position) where
  unfoldable pub easy_stream : Stream
  unfolding easy_parse_error
  easy_stream = record {
    Input = S.Input;
    Token = S.Token;
    Range = S.Range;
    Position = S.Position;
    StreamErrorFor = EasyError S.Token S.Range X;
    Error = Errors S.Token S.Range X S.Position;
    Checkpoint = S.Checkpoint;
    parse_error = easy_parse_error eq_token eq_range cmp;
    uncons = λ i. (convert stream_into_other (S.uncons i).0, (S.uncons i).1);
    is_partial = S.is_partial;
    position = S.position;
    eq_position = S.eq_position;
    checkpoint = S.checkpoint;
    reset = λ c i. (convert error_into_other (S.reset c i).0, (S.reset c i).1);
  }
