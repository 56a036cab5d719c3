-- ===== src/Stream/Decoder/Resumes.antt =====
-- src/stream/mod.rs: `decode!` with `take_while` where the reader fails: the decoder can be used again.
use combine.Prelude.{
  ℕ, zero, suc, ◌≤◌, ◌<◌, ◌≡◌, refl, sym, ap, ◌∙◌, Bool, true, false, List, [], ◌++◌, none, Result,
  ok, err, Run, length, take_while, drop_while, arith, inl, inr, append_assoc, append-nil, subst,
  if◌then◌else◌, ◌==◌, Returns, Returns-bind, Returns-map, bind_assoc,
}
use combine.Stream.Bytes.{BytesMut}
use combine.Stream.BufReader.{CombineBuffer}
use combine.Stream.BufReader.Contract.{IsLawful, Extends}
use combine.Stream.Decoder.{
  Decoder, parse_failed, io_failed, decoded, removed, read_on, read_result, advance, before_parse,
}
use combine.Stream.Decoder.Rounds.{
  Passing, decode_passing, then_passing, slice_of, held, all_bytes, Ready, reads_left, Passes,
  Passes-ended, Passes-cut, round-waits, Ready-next,
}
use combine.Stream.Slice.{Slice}
use combine.Parser.Range
use combine.Parser.Range.Maybe.{maybe}
use combine.Parser.Range.Feed.{passing-append, List-cases}

module _ {B : BytesMut} {E : Type 0} (C : CombineBuffer B E) (f : ℕ → Bool) where
  -- What follows a read.
  unfoldable after_read :
      ℕ → Decoder ℕ ℕ C.Self → Result ℕ E × C.Self × C.Reader → Run (Passing C f)
  unfolding Range.take_while read_on
  after_read fuel d x =
      read_on C (maybe {T = ℕ} 1 f) (λ input _. input) (Range.take_while (maybe {T = ℕ} 1 f) f)
        (decode_passing C f fuel) (read_result C d x)

module _ {B : BytesMut} {E : Type 0} {C : CombineBuffer B E} {unread : C.Reader → List ℕ}
    (lawful : IsLawful C unread) (f : ℕ → Bool) where
  -- The longest prefix that passes of all bytes, with the others left behind; or an error of the reader,
  -- with no byte lost and the decoder ready to go on.
  abbrev pub Ends : Decoder ℕ ℕ C.Self → C.Reader → Passing C f → Type 0
  Ends d r (ok v, d', r') =
      (v.items ≡ take_while f (all_bytes lawful f d r))
      × (all_bytes lawful f d' r' ≡ drop_while f (all_bytes lawful f d r))
  Ends d r (err (parse_failed e), d', r') = ⊥
  Ends d r (err (io_failed position e), d', r') =
      Ready lawful f d' r'
      × (reads_left lawful f d' r' ≤ reads_left lawful f d r)
      × (all_bytes lawful f d' r' ≡ all_bytes lawful f d r)

  Passes-Ends :
      (fuel : ℕ) (d : Decoder ℕ ℕ C.Self) (r : C.Reader)
      → Passes lawful f fuel d r
      → Returns (Ends d r) (decode_passing C f fuel d r)
  Passes-Ends fuel d r (v, d', r', ran, items, left) = rw ran (items, left)

  Ends-before :
      (d d' : Decoder ℕ ℕ C.Self) (r r' : C.Reader) (x : Passing C f)
      → all_bytes lawful f d' r' ≡ all_bytes lawful f d r
      → reads_left lawful f d' r' ≤ reads_left lawful f d r
      → Ends d' r' x
      → Ends d r x
  Ends-before d d' r r' (ok v, _, _) same fewer (items, left) =
      (items ∙ ap (take_while f) same, left ∙ ap (drop_while f) same)
  Ends-before d d' r r' (err (parse_failed e), _, _) same fewer h = h
  Ends-before d d' r r' (err (io_failed _ e), _, _) same fewer (ready, left, kept) =
      (ready, omega (arith, left, fewer), kept ∙ same)

  module _ (d : Decoder ℕ ℕ C.Self) (r : C.Reader)
      (all_pass : drop_while f (held lawful f d r) ≡ []) (more : d.end_of_input ≡ false) where
    -- The decoder once the parser has asked for more, with what it has looked at as its state.
    abbrev waiting : C.Self → ℕ → Decoder ℕ ℕ C.Self
    waiting c position = record {
      position = position;
      state = length (held lawful f d r);
      buffer = c;
      end_of_input = d.end_of_input;
    }

    extended :
        (fuel position : ℕ) (c : C.Self) (r₁ : C.Reader) (x : Result ℕ E × C.Self × C.Reader)
        → held lawful f (waiting c position) r₁ ≡ held lawful f d r
        → unread r₁ ≡ unread r
        → ((d' : Decoder ℕ ℕ C.Self) (r' : C.Reader)
            → Ready lawful f d' r'
            → reads_left lawful f d' r' < fuel
            → Returns (Ends d' r') (decode_passing C f fuel d' r'))
        → reads_left lawful f d r < suc fuel
        → Extends C unread c r₁ x
        → Returns (Ends d r) (after_read C f fuel (waiting c position) x)
    unfolding after_read
    extended fuel position c r₁ (err e, c', r') held' same rest h (kept, left) =
        let now : held lawful f (waiting c' position) r' ≡ held lawful f d r = kept ∙ held' in
        let fits : length (held lawful f d r) ≤ length (take_while f (held lawful f d r)) =
          subst (λ ys. length (held lawful f d r) ≤ length (take_while f ys))
            (append-nil (held lawful f d r)) (passing-append 1 f (held lawful f d r) [] all_pass) in
        (inr (more, rw now fits), rw (left, same) (omega arith), rw (now, left, same))
    extended fuel position c r₁ (ok n, c', r') held' same rest h (xs, counted, kept, split, ends) =
        let d' : Decoder ℕ ℕ C.Self = record (waiting c' position) {
          end_of_input = if n == 0 then true else d.end_of_input;
        } in
        let (ready, fewer) =
          Ready-next lawful f d d' r r' xs all_pass more refl (rw counted refl)
            (kept ∙ ap (λ ys. ys ++ xs) held') (sym same ∙ split)
            (λ none_given. sym same ∙ ends (counted ∙ none_given)) in
        let kept_all : all_bytes lawful f d' r' ≡ all_bytes lawful f d r =
          ap (λ ys. ys ++ unread r') (kept ∙ ap (λ ys. ys ++ xs) held')
          ∙ append_assoc (held lawful f d r) xs (unread r')
          ∙ ap (λ ys. held lawful f d r ++ ys) (sym split ∙ same) in
        Returns-map (Ends d' r') (Ends d r) (decode_passing C f fuel d' r')
          (λ x. Ends-before d d' r r' x kept_all (omega (arith, fewer)))
          (rest d' r' ready (omega (arith, fewer, h)))

    -- The parser has asked for more.
    waits :
        (fuel : ℕ) (input : Slice ℕ × Bool)
        → ((d' : Decoder ℕ ℕ C.Self) (r' : C.Reader)
            → Ready lawful f d' r'
            → reads_left lawful f d' r' < fuel
            → Returns (Ends d' r') (decode_passing C f fuel d' r'))
        → reads_left lawful f d r < suc fuel
        → Returns
            (Ends d r)
            (then_passing C f fuel d r (ok (none, 0), input, length (held lawful f d r)))
    unfolding then_passing decoded advance removed before_parse after_read
    waits fuel input rest h =
        let (c₁, r₁, ran, dropped, same) = lawful.advance_lem 0 d.buffer r (omega arith) in
        let d₁ = waiting c₁ input.0.pointer in
        rw (ran, bind_assoc (C.extend_buf c₁ r₁))
          (Returns-bind (Extends C unread c₁ r₁) (Ends d r) (C.extend_buf c₁ r₁)
            (after_read C f fuel d₁) (lawful.extend_lem c₁ r₁)
            (λ x. extended fuel input.0.pointer c₁ r₁ x dropped same rest h))

  -- Over a buffer that does what a decoder relies on, from a decoder that is ready, with fuel above the
  -- reads that are left, the loop ends: with the longest prefix of all bytes that passes, and the others
  -- left behind; or with an error of the reader, where no byte is lost and the decoder is ready again,
  -- with no more reads left than before. It does not end with an error of the parser.
  pub decode-Ends :
      (fuel : ℕ) (d : Decoder ℕ ℕ C.Self) (r : C.Reader)
      → Ready lawful f d r
      → reads_left lawful f d r < fuel
      → Returns (Ends d r) (decode_passing C f fuel d r)
  decode-Ends zero d r ready h = absurd (omega (arith, h))
  decode-Ends (suc fuel) d r (inl (ended, gone)) h =
      Passes-Ends (suc fuel) d r (Passes-ended lawful f fuel d r ended gone)
  decode-Ends (suc fuel) d r (inr (more, read)) h =
      elim (List-cases 1 f (drop_while f (held lawful f d r))) [
        | inr (x, xs, some_fail) ↦
            Passes-Ends (suc fuel) d r (Passes-cut lawful f fuel d r x xs more read some_fail)
        | inl all_pass ↦
            rw (round-waits lawful f fuel d r more read all_pass)
              (waits d r all_pass more fuel (slice_of C f d r, true) (decode-Ends fuel) h)
      ]
