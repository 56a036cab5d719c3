-- ===== src/Stream/Easy.antt =====
-- src/stream/easy.rs: the errors that list what was unexpected and what was expected. The
-- `PartialEq` of tokens and of ranges are arguments; a boxed error is a value of the type `X`.
pub mod Convert
pub mod Maps
pub mod Merge
pub mod Ranges
use text.Mathlib.Text.{◌==◌ as str_eq}
use Prim.Native.Nat.{Ordering}
use combine.Prelude.{
  ℕ, Bool, true, false, not, String, List, [], ◌∷◌, ◌++◌, all, retain, drop, take, length,
  if◌then◌else◌,
}
use combine.Error.Types.{Tracked}
use combine.Error.Traits.{StreamError, ParseError}

-- `Info<T, R>`.
pub data EasyInfo (T R : Type 0) : Type 0 where
  token_info : T → EasyInfo T R
  range_info : R → EasyInfo T R
  owned : String → EasyInfo T R
  static_info : String → EasyInfo T R

-- `Error<T, R>`.
pub data EasyError (T R X : Type 0) : Type 0 where
  unexpected_error : EasyInfo T R → EasyError T R X
  expected_error : EasyInfo T R → EasyError T R X
  message_error : EasyInfo T R → EasyError T R X
  other_error : X → EasyError T R X

-- `Errors<T, R, P>`.
pub record Errors (T R X P : Type 0) : Type 0 where
  pub position : P
  pub errors : List (EasyError T R X)

module _ {T R : Type 0} (eq_token : T → T → Bool) (eq_range : R → R → Bool) where
  unfoldable pub eq_info : EasyInfo T R → EasyInfo T R → Bool
  eq_info (token_info l) (token_info r) = eq_token l r
  eq_info (range_info l) (range_info r) = eq_range l r
  eq_info (owned l) (owned r) = str_eq l r
  eq_info (static_info l) (owned r) = str_eq l r
  eq_info (owned l) (static_info r) = str_eq l r
  eq_info (static_info l) (static_info r) = str_eq l r
  eq_info _ _ = false

abbrev is_not_expected : {T R X : Type 0} → EasyError T R X → Bool
is_not_expected (expected_error _) = false
is_not_expected _ = true

module _ {T R X : Type 0} (eq_token : T → T → Bool) (eq_range : R → R → Bool) where
  -- Two boxed errors are never equal.
  unfoldable pub eq_error : EasyError T R X → EasyError T R X → Bool
  unfolding eq_info
  eq_error (unexpected_error l) (unexpected_error r) = eq_info eq_token eq_range l r
  eq_error (expected_error l) (expected_error r) = eq_info eq_token eq_range l r
  eq_error (message_error l) (message_error r) = eq_info eq_token eq_range l r
  eq_error _ _ = false

  abbrev pub end_of_input : EasyError T R X
  end_of_input = unexpected_error (static_info "end of input")

  -- `impl StreamError for Error`; `msg.to_string()` is the text itself.
  unfoldable pub easy_stream_error : StreamError T R (EasyError T R X)
  unfolding eq_error
  easy_stream_error = record {
    unexpected_token = λ t. unexpected_error (token_info t);
    unexpected_range = λ r. unexpected_error (range_info r);
    unexpected_format = λ msg. unexpected_error (owned msg);
    unexpected_static_message = λ msg. unexpected_error (static_info msg);
    expected_token = λ t. expected_error (token_info t);
    expected_range = λ r. expected_error (range_info r);
    expected_format = λ msg. expected_error (owned msg);
    expected_static_message = λ msg. expected_error (static_info msg);
    message_token = λ t. message_error (token_info t);
    message_range = λ r. message_error (range_info r);
    message_format = λ msg. message_error (owned msg);
    message_static_message = λ msg. message_error (static_info msg);
    end_of_input = end_of_input;
    is_unexpected_end_of_input = λ e. eq_error e end_of_input;
  }

  -- `errors.iter().all(|err| *err != error)`.
  unfoldable pub is_new : EasyError T R X → List (EasyError T R X) → Bool
  unfolding eq_error
  is_new error errors = all (λ err. not (eq_error err error)) errors

  unfoldable pub push_new : EasyError T R X → List (EasyError T R X) → List (EasyError T R X)
  unfolding is_new
  push_new error errors = if is_new error errors then errors ++ error ∷ [] else errors

  -- `for message in other.errors.drain(..) { self.add_error(message); }`.
  unfoldable pub push_all : List (EasyError T R X) → List (EasyError T R X) → List (EasyError T R X)
  unfolding push_new
  push_all errors [] = errors
  push_all errors (e ∷ es) = push_all (push_new e errors) es

  any_end : List (EasyError T R X) → Bool
  unfolding eq_error
  any_end errors = not (all (λ e. not (eq_error e end_of_input)) errors)

  module _ {P : Type 0} where
    unfoldable pub add_error : EasyError T R X → Errors T R X P → Errors T R X P
    unfolding push_new
    add_error error self = record self { errors = push_new error self.errors }

    unfoldable pub merge_by : Ordering → Errors T R X P → Errors T R X P → Errors T R X P
    unfolding push_all
    merge_by Ordering.lt self that = that
    merge_by Ordering.gt self that = self
    merge_by Ordering.eq self that = record self { errors = push_all self.errors that.errors }

    -- `cmp` is the `Ord` of positions.
    unfoldable pub merge_errors :
        (P → P → Ordering) → Errors T R X P → Errors T R X P → Errors T R X P
    unfolding merge_by
    merge_errors cmp self that = merge_by (cmp self.position that.position) self that

    -- `set_expected` of `ParseError`: the expected errors that `f` adds are replaced by `info`.
    unfoldable pub set_expected :
        Tracked (Errors T R X P)
        → EasyError T R X
        → (Tracked (Errors T R X P) → Tracked (Errors T R X P))
        → Tracked (Errors T R X P)
    unfolding add_error
    set_expected self info f =
        let start = length self.error.errors in
        let self' = f self in
        let kept =
          take start self'.error.errors ++ retain is_not_expected (drop start self'.error.errors) in
        record self' { error = add_error info (record self'.error { errors = kept }) }

    -- `impl ParseError for Errors`.
    unfoldable pub easy_parse_error :
        (P → P → Ordering) → ParseError T R P (EasyError T R X) (Errors T R X P)
    unfolding easy_stream_error merge_errors add_error set_expected any_end
    easy_parse_error cmp = record {
      stream_error = easy_stream_error;
      empty = λ position. record { position = position; errors = [] };
      from_error = λ position e. record { position = position; errors = e ∷ [] };
      set_position = λ position self. record self { position = position };
      merge = merge_errors cmp;
      add = add_error;
      set_expected = set_expected;
      clear_expected = λ self. record self { errors = retain is_not_expected self.errors };
      is_unexpected_end_of_input = λ self. any_end self.errors;
    }
