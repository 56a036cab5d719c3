-- ===== src/Parser/Decode/Waits.antt =====
-- src/stream/mod.rs, src/parser/range.rs: `decode` of `take_while` over a slice that is partial.
use combine.Prelude.{
  ℕ, ◌≤◌, ◌<◌, ◌≡◌, ap, Bool, List, [], ◌∷◌, some, none, ok, Run, done, length, take_while,
  drop_while, arith,
}
use combine.Error.Unexpected.{unexpected_parse_error}
use combine.Stream.Slice.{Slice}
use combine.Stream.Range.Slices.{distance_lem}
use combine.Parser.Range
use combine.Parser.Range.Take.{partial_slices, prefix, rest}
use combine.Parser.Range.Resume.{take_while-resumed, take_while-suspended, length-drop_while}
use combine.Parser.Decode.{decode, Decoded}

module _ {T : Type 0} (size : ℕ) (f : T → Bool) where
  -- `decode` with `take_while`, whose state is a number.
  unfoldable pub decode_take_while :
      Slice T → ℕ → Run (Decoded (partial_slices {T = T} size f) (Slice T) ℕ)
  unfolding decode Range.take_while
  decode_take_while =
      decode (partial_slices {T = T} size f) (Range.take_while (partial_slices {T = T} size f) f)

  -- Where all of the slice passes, `decode` gives no value and no error: it has read nothing, and the
  -- state says how much of the slice need not be looked at again.
  pub decode-waits :
      (w : Slice T) (d : ℕ)
      → d ≤ length w.items
      → drop_while f w.items ≡ []
      → decode_take_while w d ≡ done (ok (none, 0), w, length w.items)
  unfolding decode_take_while unexpected_parse_error
  decode-waits w d le all_pass =
      rw (take_while-suspended size f w d le all_pass, distance_lem size w w (omega arith))
        (ap (λ n. done (ok (none, n), w, length w.items)) (omega arith))

  -- Where the end of the prefix has come, `decode`, resumed from a part of the prefix, gives all of it
  -- with its length.
  pub decode-gives :
      (w : Slice T) (d : ℕ) (x : T) (xs : List T)
      → 0 < d
      → d ≤ length (take_while f w.items)
      → drop_while f w.items ≡ x ∷ xs
      → decode_take_while w d
        ≡ done (ok (some (prefix size f w), length (take_while f w.items)), rest size f w, 0)
  unfolding decode_take_while rest
  decode-gives w d x xs h le some_fail =
      let sum = length-drop_while size f w.items in
      rw
        (
          take_while-resumed size f w d x xs h le some_fail,
          distance_lem size (rest size f w) w (omega (arith, sum)),
        )
        (ap (λ n. done (ok (some (prefix size f w), n), rest size f w, 0)) (omega (arith, sum)))
