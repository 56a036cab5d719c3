-- ===== src/Stream/Decoder/Within.antt =====
-- src/stream/mod.rs: what a parse within `decode!` has read is in the buffer.
use combine.Prelude.{
  ℕ, ◌≤◌, ◌≡◌, refl, sym, ◌∙◌, Bool, true, false, some, none, Result, ok, err, length, arith,
  Returns, Returns-bind, ◌&&◌, Bool-cases, inl, inr,
}
use combine.Error.Unexpected.{UnexpectedParse}
use combine.Stream.Slice.{Slice}
use combine.Stream.Range.Slices.{distance_lem}
use combine.Parser.Core.{Parser}
use combine.Parser.Core.Entry.{parse_with_state}
use combine.Parser.Decode as Decode
use combine.Parser.Decode.{Decoded, decode}
use combine.Stream.Decoder.Bufferless.{bytes, Leaves, Parses}

module _ {A : Type 0} (p : Parser bytes.stream A) where
  -- What is read is in the slice, and more is asked for only where more may come.
  abbrev pub Within : Slice ℕ × Bool → Decoded bytes A p.PartialState → Type 0
  Within before (ok (some v, n), input, st) = n ≤ length before.0.items
  Within before (ok (none, n), input, st) = (n ≤ length before.0.items) × (before.1 ≡ true)
  Within before (err e, input, st) = Unit

  both : (a b : Bool) → (a && b) ≡ true → a ≡ true
  both true b h = refl
  both false b h = h

  decoded-Within :
      (s : Slice ℕ × Bool) (x : Result A UnexpectedParse × (Slice ℕ × Bool) × p.PartialState)
      → Leaves p s x
      → Returns (Within s) (Decode.decoded bytes s.0 x)
  unfolding Decode.decoded
  decoded-Within s (ok v, input, st) (fits, same) =
      rw (distance_lem 1 input.0 s.0 fits) (omega arith)
  decoded-Within s (err e, input, st) (fits, same) =
      elim (Bool-cases (input.1 && bytes.stream.parse_error.is_unexpected_end_of_input e)) [
        | inl waits ↦
            rw (waits, distance_lem 1 input.0 s.0 fits) (omega arith, sym same ∙ both _ _ waits)
        | inr over ↦ rw over tt
      ]

  pub decode-Within :
      Parses p
      → (s : Slice ℕ × Bool) (st : p.PartialState) → Returns (Within s) (decode bytes p s st)
  unfolding decode
  decode-Within parses s st =
      Returns-bind (Leaves p s) (Within s) (parse_with_state p s st) (Decode.decoded bytes s.0)
        (parses s st) (decoded-Within s)
