-- ===== src/Stream/Decoder/TakeWhile.antt =====
-- src/stream/mod.rs: `decode!` with `take_while` over a reader gives what a parse of all of its bytes
-- gives, however the reader cuts them.
use combine.Prelude.{
  ℕ, zero, suc, ◌<◌, ◌≡◌, refl, sym, ap, subst, ◌∙◌, Bool, true, List, [], ◌++◌, none, ok, length,
  take_while, drop_while, arith, inl, inr, append_assoc, if◌then◌else◌, ◌==◌, Returns,
}
use combine.Stream.Bytes.{BytesMut}
use combine.Stream.BufReader.{CombineBuffer}
use combine.Stream.BufReader.Contract.{IsLawful, AlwaysReads, Extends}
use combine.Stream.Decoder.{Decoder, decoded, removed, read_on, advance, before_parse}
use combine.Stream.Slice.{Slice}
use combine.Parser.Range.Feed.{List-cases}
use combine.Stream.Decoder.Rounds.{
  decode_passing, then_passing, slice_of, all_bytes, held, Ready, reads_left, Passes, Passes-ended,
  Passes-cut, round-waits, Ready-next,
}

module _ {B : BytesMut} {E : Type 0} {C : CombineBuffer B E} {unread : C.Reader → List ℕ}
    (lawful : IsLawful C unread) (reads : AlwaysReads C) (f : ℕ → Bool) where
  -- Where more is asked for, the loop goes on with what a read has added.
  then-reads :
      (fuel : ℕ) (d : Decoder ℕ ℕ C.Self) (r : C.Reader) (input : Slice ℕ × Bool) (st : ℕ)
      → (d' : Decoder ℕ ℕ C.Self) × (r' : C.Reader) × (xs : List ℕ) × (then_passing C f fuel d r
            (ok (none, 0), input, st)
          ≡ decode_passing C f fuel d' r')
        × (d'.state ≡ st)
        × (d'.end_of_input ≡ (if length xs == 0 then true else d.end_of_input))
        × (held lawful f d' r' ≡ held lawful f d r ++ xs)
        × (unread r ≡ xs ++ unread r')
        × (length xs ≡ 0 → unread r ≡ [])
  unfolding then_passing decoded advance removed before_parse read_on
  then-reads fuel d r input st =
      let (c₁, r₁, ran, dropped, same) = lawful.advance_lem 0 d.buffer r (omega arith) in
      let (n, c₂, r₂, read) = reads c₁ r₁ in
      let (xs, counted, kept, split, ends) =
        subst (Returns (Extends C unread c₁ r₁)) read (lawful.extend_lem c₁ r₁) in
      (
        record {
          position = input.0.pointer;
          state = st;
          buffer = c₂;
          end_of_input = if n == 0 then true else d.end_of_input;
        },
        r₂,
        xs,
        rw (ran, read) refl,
        refl,
        rw counted refl,
        kept ∙ ap (λ ys. ys ++ xs) dropped,
        sym same ∙ split,
        λ none_given. sym same ∙ ends (counted ∙ none_given),
      )

  -- Over a buffer that does what a decoder relies on, and whose reads give bytes: where the decoder has
  -- seen the end and no byte is to come, or has not seen it and the parser has looked at no more than the
  -- bytes in the buffer that pass, and the fuel is above the bytes yet to come, and one more where the
  -- end was not seen, the loop ends with the longest prefix of all bytes that passes, however the reader
  -- cuts them; what is left in the buffer and the reader is what is behind it.
  pub decode-take_while :
      (fuel : ℕ) (d : Decoder ℕ ℕ C.Self) (r : C.Reader)
      → Ready lawful f d r
      → reads_left lawful f d r < fuel
      → Passes lawful f fuel d r
  decode-take_while zero d r ready h = absurd (omega (arith, h))
  decode-take_while (suc fuel) d r (inl (ended, gone)) h = Passes-ended lawful f fuel d r ended gone
  decode-take_while (suc fuel) d r (inr (more, read)) h =
      elim (List-cases 1 f (drop_while f (held lawful f d r))) [
        | inr (x, xs, some_fail) ↦ Passes-cut lawful f fuel d r x xs more read some_fail
        | inl all_pass ↦
            let (d', r', xs, ran, kept, ended, held', split, ends) =
              then-reads fuel d r (slice_of C f d r, true) (length (held lawful f d r)) in
            let (ready', fewer) =
              Ready-next lawful f d d' r r' xs all_pass more kept ended held' split ends in
            let (v, d'', r'', gave, items, left) =
              decode-take_while fuel d' r' ready' (omega (arith, fewer, h)) in
            let same : all_bytes lawful f d' r' ≡ all_bytes lawful f d r =
              ap (λ ys. ys ++ unread r') held'
              ∙ append_assoc (held lawful f d r) xs (unread r')
              ∙ ap (λ ys. held lawful f d r ++ ys) (sym split) in
            (
              v,
              d'',
              r'',
              round-waits lawful f fuel d r more read all_pass ∙ ran ∙ gave,
              items ∙ ap (take_while f) same,
              left ∙ ap (drop_while f) same,
            )
      ]
