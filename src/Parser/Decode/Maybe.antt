-- ===== src/Parser/Decode/Maybe.antt =====
-- src/stream/mod.rs, src/parser/range.rs: `decode` of `take_while` over `MaybePartialStream`, as the
-- macro `decode!` makes it: what it does on a partial slice, and on one that is all there.
use combine.Prelude.{
  ℕ, zero, suc, ◌≤◌, ◌≡◌, refl, ap, Bool, true, false, List, [], ◌∷◌, some, none, ok, Run, done,
  length, take_while, drop_while, arith, Bool-cases, inl, inr, ◌==◌, if◌then◌else◌,
}
use combine.Error.Types.{commit_ok, peek_ok}
use combine.Error.Unexpected.{unexpected_parse_error}
use combine.Stream.Slice.{Slice}
use combine.Stream.Range.Slices.{distance_lem}
use combine.Parser.Core.{resume_mode}
use combine.Parser.Decode.{decode, Decoded}
use combine.Parser.Range
use combine.Parser.Range.{
  suspend, retake, retaken, first_result, resume_result, skip_read, parse_partial_range,
}
use combine.Parser.Range.Resume.{length-drop_while, take_while-resumed, take_while-suspended}
use combine.Parser.Range.Take.{prefix, rest, step, while-enough}
use combine.Parser.Range.Maybe.{maybe, step-tagged, while-whole}

module _ {T : Type 0} (size : ℕ) (f : T → Bool) where
  -- `decode` of `take_while`.
  unfoldable pub decode_maybe :
      Slice T × Bool → ℕ → Run (Decoded (maybe {T = T} size f) (Slice T) ℕ)
  unfolding decode Range.take_while
  decode_maybe = decode (maybe {T = T} size f) (Range.take_while (maybe {T = T} size f) f)

  pub decode_maybe-whole :
      (s : Slice T) (d : ℕ)
      → decode_maybe (s, false) d
        ≡ done
            (ok (some (prefix size f s), length (take_while f s.items)), (rest size f s, false), d)
  unfolding decode_maybe rest
  decode_maybe-whole s d =
      let sum = length-drop_while size f s.items in
      elim (Bool-cases (length (take_while f s.items) == 0)) [
        | inl empty ↦
            rw
              (
                while-whole size f s,
                empty,
                distance_lem size (rest size f s) s (omega (arith, sum)),
              )
              (ap (λ n. done (ok (some (prefix size f s), n), (rest size f s, false), d))
                (omega (arith, sum)))
        | inr some_pass ↦
            rw
              (
                while-whole size f s,
                some_pass,
                distance_lem size (rest size f s) s (omega (arith, sum)),
              )
              (ap (λ n. done (ok (some (prefix size f s), n), (rest size f s, false), d))
                (omega (arith, sum)))
      ]

  pub decode_maybe-waits :
      (w : Slice T) (d : ℕ)
      → d ≤ length w.items
      → drop_while f w.items ≡ []
      → decode_maybe (w, true) d ≡ done (ok (none, 0), (w, true), length w.items)
  unfolding decode_maybe unexpected_parse_error
  decode_maybe-waits w d le all_pass =
      rw
        (
          step-tagged size f w d,
          take_while-suspended size f w d le all_pass,
          distance_lem size w w (omega arith),
        )
        (ap (λ n. done (ok (none, n), (w, true), length w.items)) (omega arith))

  -- A result of the step that is not an error is the result.
  decode-ran :
      (w : Slice T) (d : ℕ) (b : Bool)
      → step size f resume_mode w d
        ≡ done
            (if b then peek_ok (prefix size f w) else commit_ok (prefix size f w), rest size f w, 0)
      → decode_maybe (w, true) d
        ≡ done
            (ok (some (prefix size f w), length (take_while f w.items)), (rest size f w, true), 0)
  unfolding decode_maybe rest
  decode-ran w d true ran =
      let sum = length-drop_while size f w.items in
      rw (step-tagged size f w d, ran, distance_lem size (rest size f w) w (omega (arith, sum)))
        (ap (λ n. done (ok (some (prefix size f w), n), (rest size f w, true), 0))
          (omega (arith, sum)))
  decode-ran w d false ran =
      let sum = length-drop_while size f w.items in
      rw (step-tagged size f w d, ran, distance_lem size (rest size f w) w (omega (arith, sum)))
        (ap (λ n. done (ok (some (prefix size f w), n), (rest size f w, true), 0))
          (omega (arith, sum)))

  start-gives :
      (w : Slice T) (b : Bool) (x : T) (xs : List T)
      → (length (take_while f w.items) == 0) ≡ b
      → drop_while f w.items ≡ x ∷ xs
      → step size f resume_mode w 0
        ≡ done
            (if b then peek_ok (prefix size f w) else commit_ok (prefix size f w), rest size f w, 0)
  unfolding parse_partial_range first_result
  start-gives w true x xs e some_fail = rw (while-enough size f w x xs some_fail, e)
  start-gives w false x xs e some_fail = rw (while-enough size f w x xs some_fail, e)

  -- Also where nothing has been read before.
  pub decode_maybe-gives :
      (w : Slice T) (d : ℕ) (x : T) (xs : List T)
      → d ≤ length (take_while f w.items)
      → drop_while f w.items ≡ x ∷ xs
      → decode_maybe (w, true) d
        ≡ done
            (ok (some (prefix size f w), length (take_while f w.items)), (rest size f w, true), 0)
  decode_maybe-gives w zero x xs le some_fail =
      decode-ran w 0 _ (start-gives w _ x xs refl some_fail)
  decode_maybe-gives w (suc d) x xs le some_fail =
      decode-ran w (suc d) false
        (take_while-resumed size f w (suc d) x xs (omega arith) le some_fail)
