-- ===== src/Parser/Decode.antt =====
-- src/stream/mod.rs: the function `decode`, by which a caller with a part of the input runs a parser.
pub mod Maybe
pub mod Waits
use combine.Prelude.{
  ℕ, Bool, ◌&&◌, Option, some, none, Result, ok, err, Run, done, ◌>>=◌, if◌then◌else◌,
}
use combine.Stream.Range.{RangeStream}
use combine.Parser.Core.{Parser}
use combine.Parser.Core.Entry.{parse_with_state}

module _ (R : RangeStream) where
  -- The value, if there is one, and the size of what was read.
  abbrev pub Decoded : Type 0 → Type 0 → Type 0
  Decoded A P = Result (Option A × ℕ) R.stream.Error × R.stream.Input × P

  unfoldable pub decoded :
      {A P : Type 0}
      → R.stream.Checkpoint
      → Result A R.stream.Error × R.stream.Input × P
      → Run (Decoded A P)
  decoded before (ok message, input, st) = do
    d ← R.distance input before
    done (ok (some message, d), input, st)
  decoded {A} before (err e, input, st) =
      let waits : Run (Decoded A _) = do d ← R.distance input before; done (ok (none, d), input, st)
      in if R.stream.is_partial input && R.stream.parse_error.is_unexpected_end_of_input e
        then waits
        else done (err e, input, st)

  unfoldable pub decode :
      {A : Type 0} (p : Parser R.stream A)
      → R.stream.Input
      → p.PartialState
      → Run (Decoded A p.PartialState)
  unfolding parse_with_state decoded
  decode p input st = do r ← parse_with_state p input st; decoded (R.stream.checkpoint input) r
