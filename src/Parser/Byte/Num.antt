-- ===== src/Parser/Byte/Num.antt =====
-- src/parser/byte.rs, `num`: the integers and floats of a fixed number of bytes.
pub mod Roundtrip
use combine.Prelude.{
  ℕ, zero, suc, ◌+◌, ◌*◌, List, [], ◌∷◌, ◌++◌, Result, ok, err, Bool, true, false,
}
use combine.Error.Types.{ParseResult, commit_ok, peek_ok, commit_err, peek_err, StdParseResult}
use combine.Error.ParseResult.{into_result}
use combine.Stream.Core.{Stream}
use combine.Stream.Ops.{uncons}
use combine.Parser.Core.{Parser, Outcome, reset_then}
use combine.Parser.Function.{fn_parser}

-- The value of bytes, the most significant first, and the least significant first.
unfoldable pub be_value : ℕ → List ℕ → ℕ
be_value v [] = v
be_value v (b ∷ bs) = be_value (v * 256 + b) bs

unfoldable pub le_value : List ℕ → ℕ
le_value [] = 0
le_value (b ∷ bs) = b + 256 * le_value bs

module _ (S : Stream) (code : S.Token → ℕ) where
  -- `ctry!(uncons(input)).0` for each of the bytes of the buffer.
  next_byte :
      (List ℕ → S.Input → Outcome S (List ℕ)) → List ℕ → Outcome S S.Token → Outcome S (List ℕ)
  next_byte more read (commit_ok t, input) = more (read ++ code t ∷ []) input
  next_byte more read (peek_ok t, input) = more (read ++ code t ∷ []) input
  next_byte more read (commit_err e, input) = (commit_err e, input)
  next_byte more read (peek_err e, input) = (peek_err e, input)

  unfoldable pub read_bytes : ℕ → List ℕ → S.Input → Outcome S (List ℕ)
  unfolding next_byte uncons
  read_bytes zero read input = (commit_ok read, input)
  read_bytes (suc n) read input = next_byte (read_bytes n) read (uncons S input)

  -- Where a byte is missing the input goes back, and an error of that is returned instead.
  number_result :
      {A : Type 0}
      → (List ℕ → A)
      → S.Checkpoint
      → Outcome S (List ℕ)
      → StdParseResult A S.Error × S.Input
  unfolding reset_then into_result
  number_result from_bytes before (commit_ok bs, input) =
      (into_result (commit_ok (from_bytes bs)), input)
  number_result from_bytes before (peek_ok bs, input) =
      (into_result (peek_ok (from_bytes bs)), input)
  number_result from_bytes before (commit_err e, input) =
      reset_then S before input (λ e' i. (into_result (commit_err e'), i))
        λ i. (into_result (commit_err e), i)
  number_result from_bytes before (peek_err e, input) =
      reset_then S before input (λ e' i. (into_result (commit_err e'), i))
        λ i. (into_result (peek_err e), i)

  -- The parser of `n` bytes; `from_bytes` is `from_be_bytes` or `from_le_bytes` of the type.
  unfoldable pub number : {A : Type 0} → ℕ → (List ℕ → A) → Parser S A
  unfolding fn_parser read_bytes number_result
  number n from_bytes =
      fn_parser S λ input. number_result from_bytes (S.checkpoint input) (read_bytes n [] input)

  -- `be_u16`, `be_u32` and `be_u64`, and `le_u16`, `le_u32` and `le_u64`.
  unfoldable pub be_unsigned : ℕ → Parser S ℕ
  unfolding number be_value
  be_unsigned n = number n (be_value 0)

  unfoldable pub le_unsigned : ℕ → Parser S ℕ
  unfolding number le_value
  le_unsigned n = number n le_value

  -- The signed integers and the floats: what the bits mean is `from_bits`.
  unfoldable pub be_number : {A : Type 0} → ℕ → (ℕ → A) → Parser S A
  unfolding number be_value
  be_number n from_bits = number n (λ bs. from_bits (be_value 0 bs))

  unfoldable pub le_number : {A : Type 0} → ℕ → (ℕ → A) → Parser S A
  unfolding number le_value
  le_number n from_bits = number n (λ bs. from_bits (le_value bs))
