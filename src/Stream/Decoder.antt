-- ===== src/Stream/Decoder.antt =====
-- src/stream/decoder.rs and src/stream/mod.rs: `Decoder`, and the loop of `decode!`, which parses what
-- is in the buffer, removes what was read, and reads on where the parser asks for more.
pub mod Bufferless
pub mod Refines
pub mod Resumes
pub mod Rounds
pub mod TakeWhile
mod Tests
pub mod Within
use combine.Prelude.{
  ℕ, zero, suc, Bool, true, false, not, Option, some, none, Result, ok, err, Run, done, out_of_fuel,
  [], ◌∷◌, ◌>>=◌, ◌==◌, if◌then◌else◌,
}
use combine.Stream.Bytes.{BytesMut}
use combine.Stream.Easy.{Errors, other_error}
use combine.Stream.BufReader.{CombineBuffer}
use combine.Stream.Slice.{Slice}
use combine.Stream.Range.{RangeStream}
use combine.Parser.Core.{Parser}
use combine.Parser.Decode.{Decoded, decode}

-- `Error`, with the type of errors of the reader.
pub data DecoderError (E P IoError : Type 0) : Type 0 where
  parse_failed : E → DecoderError E P IoError
  io_failed : P → IoError → DecoderError E P IoError

-- `From<Error<..>>` for the errors of `easy`; `into` boxes an error of the reader.
unfoldable pub into_errors :
    {T R X P IoError : Type 0}
    → (IoError → X)
    → DecoderError (Errors T R X P) P IoError
    → Errors T R X P
into_errors into (parse_failed e) = e
into_errors into (io_failed position e) = record {
  position = position;
  errors = other_error (into e) ∷ [];
}

pub record Decoder (S P C : Type 0) : Type 0 where
  pub position : P
  pub state : S
  pub buffer : C
  pub end_of_input : Bool

-- `Decoder::new` and `new_bufferless`: the defaults.
abbrev pub new : {S P C : Type 0} → P → S → C → Decoder S P C
new position state buffer = record {
  position = position;
  state = state;
  buffer = buffer;
  end_of_input = false;
}

module _ {B : BytesMut} {IoError : Type 0} (C : CombineBuffer B IoError) {S P : Type 0} where
  -- A reader that gives nothing has ended.
  abbrev pub read_result :
      Decoder S P C.Self
      → Result ℕ IoError × C.Self × C.Reader
      → Result (Unit {0}) IoError × Decoder S P C.Self × C.Reader
  read_result d (err e, c, r) = (err e, record d { buffer = c }, r)
  read_result d (ok n, c, r) =
      (ok tt, record d { buffer = c; end_of_input = if n == 0 then true else d.end_of_input }, r)

  -- `__before_parse`.
  unfoldable pub before_parse :
      Decoder S P C.Self
      → C.Reader
      → Run (Result (Unit {0}) IoError × Decoder S P C.Self × C.Reader)
  before_parse d r = do x ← C.extend_buf d.buffer r; done (read_result d x)

  -- `advance`.
  unfoldable pub advance : ℕ → Decoder S P C.Self → C.Reader → Run (Decoder S P C.Self × C.Reader)
  advance removed d r = do
    (c, r') ← C.advance removed d.buffer r
    done (record d { buffer = c }, r')

-- The macro's arguments: the parser, and the function that makes the stream from the buffer, whether
-- more may come, and the position.
module _ {B : BytesMut} {IoError : Type 0} (C : CombineBuffer B IoError) (R : RangeStream)
    (input_stream : Slice ℕ × Bool → R.stream.Position → R.stream.Input) {A : Type 0}
    (p : Parser R.stream A) where
  abbrev pub DecoderOf : Type 0
  DecoderOf = Decoder p.PartialState R.stream.Position C.Self

  abbrev pub DecodeResult : Type 0
  DecodeResult =
      Result A (DecoderError R.stream.Error R.stream.Position IoError) × DecoderOf × C.Reader

  -- The stream over the buffer.
  unfoldable pub stream_of : DecoderOf → C.Reader → R.stream.Input
  stream_of d r =
      let buffer = C.buffer d.buffer r in
      let slice : Slice ℕ = record { pointer = B.as_ptr buffer; items = B.contents buffer } in
      input_stream (slice, not d.end_of_input) d.position

  -- After a read: the next round, or the error of the reader at the decoder's position.
  unfoldable pub read_on :
      (DecoderOf → C.Reader → Run DecodeResult)
      → Result (Unit {0}) IoError × DecoderOf × C.Reader
      → Run DecodeResult
  read_on more (ok _, d, r) = more d r
  read_on more (err e, d, r) = done (err (io_failed d.position e), d, r)

  -- After the bytes that were read are removed: the value, or a read.
  unfoldable pub removed :
      (DecoderOf → C.Reader → Run DecodeResult) → Option A → DecoderOf × C.Reader → Run DecodeResult
  unfolding before_parse read_on
  removed more (some v) (d, r) = done (ok v, d, r)
  removed more none (d, r) = do x ← before_parse C d r; read_on more x

  unfoldable pub decoded :
      (DecoderOf → C.Reader → Run DecodeResult)
      → DecoderOf
      → C.Reader
      → Decoded R A p.PartialState
      → Run DecodeResult
  unfolding advance removed
  decoded more d r (err e, input, st) =
      done (err (parse_failed e), record d { position = R.stream.position input; state = st }, r)
  decoded more d r (ok (v, n), input, st) = do
    x ← advance C n (record d { position = R.stream.position input; state = st }) r
    removed more v x

  -- `decode!`; the fuel bounds the rounds.
  unfoldable pub decode_loop : ℕ → DecoderOf → C.Reader → Run DecodeResult
  unfolding decoded stream_of decode
  decode_loop zero d r = out_of_fuel
  decode_loop (suc fuel) d r = do
    x ← decode R p (stream_of d r) d.state
    decoded (decode_loop fuel) d r x
