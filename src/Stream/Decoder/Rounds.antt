-- ===== src/Stream/Decoder/Rounds.antt =====
-- src/stream/mod.rs: the rounds of `decode!` with `take_while`, and what the bytes are between them.
use combine.Prelude.{
  ◌⊎◌, ℕ, suc, ◌+◌, ◌≤◌, ◌<◌, ◌≡◌, refl, sym, ap, ◌∙◌, Bool, true, false, not, List, [], ◌∷◌, ◌++◌,
  some, none, Result, ok, Run, done, ◌>>=◌, length, take_while, drop_while, drop, arith, inl, inr,
  length-append, append-nil, if◌then◌else◌, ◌==◌,
}
use combine.Error.Unexpected.{UnexpectedParse}
use combine.Stream.Bytes.{BytesMut}
use combine.Stream.BufReader.{CombineBuffer}
use combine.Stream.BufReader.Contract.{IsLawful, buffered}
use combine.Stream.Decoder.{Decoder, DecoderError, decode_loop, decoded, removed, advance}
use combine.Stream.Slice.{Slice}
use combine.Stream.Slice.While.{passing-le, drop-passing}
use combine.Parser.Range
use combine.Parser.Range.Take.{prefix}
use combine.Parser.Range.Maybe.{maybe}
use combine.Parser.Range.Feed.{take_while-more, drop_while-more, passing-append}
use combine.Parser.Decode.{Decoded}
use combine.Parser.Decode.Maybe.{
  decode_maybe, decode_maybe-whole, decode_maybe-waits, decode_maybe-gives,
}

module _ {B : BytesMut} {E : Type 0} (C : CombineBuffer B E) (f : ℕ → Bool) where
  abbrev pub Passing : Type 0
  Passing = Result (Slice ℕ) (DecoderError UnexpectedParse ℕ E) × Decoder ℕ ℕ C.Self × C.Reader

  -- `decode!(decoder, read, take_while(f))`; an item is a byte.
  unfoldable pub decode_passing : ℕ → Decoder ℕ ℕ C.Self → C.Reader → Run Passing
  unfolding decode_loop Range.take_while
  decode_passing =
      decode_loop C (maybe {T = ℕ} 1 f) (λ input _. input) (Range.take_while (maybe {T = ℕ} 1 f) f)

  unfoldable pub then_passing :
      ℕ → Decoder ℕ ℕ C.Self → C.Reader → Decoded (maybe {T = ℕ} 1 f) (Slice ℕ) ℕ → Run Passing
  unfolding decode_passing decoded Range.take_while
  then_passing fuel d r =
      decoded C (maybe {T = ℕ} 1 f) (λ input _. input) (Range.take_while (maybe {T = ℕ} 1 f) f)
        (decode_passing fuel) d r

  abbrev pub slice_of : Decoder ℕ ℕ C.Self → C.Reader → Slice ℕ
  slice_of d r = record {
    pointer = B.as_ptr (C.buffer d.buffer r);
    items = B.contents (C.buffer d.buffer r);
  }

  -- A round: a parse of the buffer, and what follows it.
  passing-suc :
      (fuel : ℕ) (d : Decoder ℕ ℕ C.Self) (r : C.Reader)
      → decode_passing (suc fuel) d r
        ≡ (decode_maybe 1 f (slice_of d r, not d.end_of_input) d.state >>= then_passing fuel d r)
  unfolding decode_passing then_passing decode_maybe
  passing-suc fuel d r = refl

module _ {B : BytesMut} {E : Type 0} {C : CombineBuffer B E} {unread : C.Reader → List ℕ}
    (lawful : IsLawful C unread) (f : ℕ → Bool) where
  -- The bytes in the buffer, those that the reader has yet to give, and both.
  abbrev pub held : Decoder ℕ ℕ C.Self → C.Reader → List ℕ
  held d r = buffered C unread d.buffer r

  abbrev pub all_bytes : Decoder ℕ ℕ C.Self → C.Reader → List ℕ
  all_bytes d r = held d r ++ unread r

  -- A value ends the loop, and the bytes that were read leave the buffer.
  pub then-gives :
      (fuel n : ℕ) (d : Decoder ℕ ℕ C.Self) (r : C.Reader) (v : Slice ℕ) (input : Slice ℕ × Bool)
      (st : ℕ)
      → n ≤ length (held d r)
      → (d' : Decoder ℕ ℕ C.Self) × (r' : C.Reader) × (then_passing C f fuel d r
            (ok (some v, n), input, st)
          ≡ done (ok v, d', r'))
        × (all_bytes d' r' ≡ drop n (held d r) ++ unread r)
  unfolding then_passing decoded advance removed
  then-gives fuel n d r v input st fits =
      let (c', r', ran, dropped, same) = lawful.advance_lem n d.buffer r fits in
      (
        record {
          position = input.0.pointer;
          state = st;
          buffer = c';
          end_of_input = d.end_of_input;
        },
        r',
        rw ran refl,
        rw (dropped, same) refl,
      )

  -- What the bytes in the buffer are when a round starts: all there is, or bytes that have passed.
  abbrev pub Ready : Decoder ℕ ℕ C.Self → C.Reader → Type 0
  Ready d r =
      ((d.end_of_input ≡ true) × (unread r ≡ []))
      ⊎ ((d.end_of_input ≡ false) × (d.state ≤ length (take_while f (held d r))))

  -- The reads that are left, one of which finds the end.
  abbrev pub reads_left : Decoder ℕ ℕ C.Self → C.Reader → ℕ
  reads_left d r = length (unread r) + (if d.end_of_input then 0 else 1)

  abbrev pub Passes : ℕ → Decoder ℕ ℕ C.Self → C.Reader → Type 0
  Passes fuel d r =
      (v : Slice ℕ) × (d' : Decoder ℕ ℕ C.Self) × (r' : C.Reader) × (decode_passing C f fuel d r
        ≡ done (ok v, d', r'))
      × (v.items ≡ take_while f (all_bytes d r))
      × (all_bytes d' r' ≡ drop_while f (all_bytes d r))

  -- A round whose parse is known.
  round :
      (fuel : ℕ) (d : Decoder ℕ ℕ C.Self) (r : C.Reader) (ended : Bool)
      (x : Decoded (maybe {T = ℕ} 1 f) (Slice ℕ) ℕ)
      → d.end_of_input ≡ ended
      → decode_maybe 1 f (slice_of C f d r, not ended) d.state ≡ done x
      → decode_passing C f (suc fuel) d r ≡ then_passing C f fuel d r x
  round fuel d r ended x e parsed =
      passing-suc C f fuel d r
      ∙ ap (λ b. decode_maybe 1 f (slice_of C f d r, not b) d.state >>= then_passing C f fuel d r) e
      ∙ ap (λ m. m >>= then_passing C f fuel d r) parsed

  -- The prefix is in the buffer, and all of it is behind it.
  Passes-now :
      (fuel : ℕ) (d : Decoder ℕ ℕ C.Self) (r : C.Reader) (input : Slice ℕ × Bool) (st : ℕ)
      → decode_passing C f (suc fuel) d r
        ≡ then_passing C f fuel d r
            (ok (some (prefix 1 f (slice_of C f d r)), length (take_while f (held d r))), input, st)
      → take_while f (all_bytes d r) ≡ take_while f (held d r)
      → drop_while f (all_bytes d r) ≡ drop_while f (held d r) ++ unread r
      → Passes (suc fuel) d r
  unfolding prefix
  Passes-now fuel d r input st ran same behind =
      let (d', r', gave, left) =
        then-gives fuel (length (take_while f (held d r))) d r (prefix 1 f (slice_of C f d r)) input
          st (passing-le f (held d r)) in
      (
        prefix 1 f (slice_of C f d r),
        d',
        r',
        ran ∙ gave,
        sym same,
        left ∙ ap (λ xs. xs ++ unread r) (drop-passing f (held d r)) ∙ sym behind,
      )

  all-held : (d : Decoder ℕ ℕ C.Self) (r : C.Reader) → unread r ≡ [] → all_bytes d r ≡ held d r
  all-held d r gone = ap (λ xs. held d r ++ xs) gone ∙ append-nil (held d r)

  not-zero : (n : ℕ) → (suc n == 0) ≡ false
  not-zero n = ground arith

  -- After a read the decoder is ready for the next round, and a read is done.
  pub Ready-next :
      (d d' : Decoder ℕ ℕ C.Self) (r r' : C.Reader) (xs : List ℕ)
      → drop_while f (held d r) ≡ []
      → d.end_of_input ≡ false
      → d'.state ≡ length (held d r)
      → d'.end_of_input ≡ (if length xs == 0 then true else d.end_of_input)
      → held d' r' ≡ held d r ++ xs
      → unread r ≡ xs ++ unread r'
      → (length xs ≡ 0 → unread r ≡ [])
      → Ready d' r' × (reads_left d' r' < reads_left d r)
  Ready-next d d' r r' [] all_pass more kept ended held' split ends =
      let gone : unread r' ≡ [] = sym split ∙ ends refl in
      (inl (ended, gone), rw (ended, more, gone, ends refl) (omega arith))
  Ready-next d d' r r' (x ∷ xs) all_pass more kept ended held' split ends =
      let more' : d'.end_of_input ≡ false = ended ∙ rw (not-zero (length xs)) more in
      (
        inr (more', rw (kept, held') (passing-append 1 f (held d r) (x ∷ xs) all_pass)),
        rw (more', more, split) (omega (arith, length-append xs (unread r'))),
      )

  -- The end was seen: all bytes are in the buffer.
  pub Passes-ended :
      (fuel : ℕ) (d : Decoder ℕ ℕ C.Self) (r : C.Reader)
      → d.end_of_input ≡ true
      → unread r ≡ []
      → Passes (suc fuel) d r
  Passes-ended fuel d r ended gone =
      Passes-now fuel d r _ _
        (round fuel d r true _ ended (decode_maybe-whole 1 f (slice_of C f d r) d.state))
        (ap (take_while f) (all-held d r gone))
        (ap (drop_while f) (all-held d r gone)
          ∙ sym (append-nil (drop_while f (held d r)))
          ∙ ap (λ ys. drop_while f (held d r) ++ ys) (sym gone))

  -- A byte in the buffer does not pass.
  pub Passes-cut :
      (fuel : ℕ) (d : Decoder ℕ ℕ C.Self) (r : C.Reader) (x : ℕ) (xs : List ℕ)
      → d.end_of_input ≡ false
      → d.state ≤ length (take_while f (held d r))
      → drop_while f (held d r) ≡ x ∷ xs
      → Passes (suc fuel) d r
  Passes-cut fuel d r x xs more read some_fail =
      Passes-now fuel d r _ _
        (round fuel d r false _ more
          (decode_maybe-gives 1 f (slice_of C f d r) d.state x xs read some_fail))
        (take_while-more 1 f (held d r) (unread r) x xs some_fail)
        (drop_while-more 1 f (held d r) (unread r) x xs some_fail)

  -- All bytes in the buffer pass: the parser asks for more.
  pub round-waits :
      (fuel : ℕ) (d : Decoder ℕ ℕ C.Self) (r : C.Reader)
      → d.end_of_input ≡ false
      → d.state ≤ length (take_while f (held d r))
      → drop_while f (held d r) ≡ []
      → decode_passing C f (suc fuel) d r
        ≡ then_passing C f fuel d r (ok (none, 0), (slice_of C f d r, true), length (held d r))
  round-waits fuel d r more read all_pass =
      let short = passing-le f (held d r) in
      round fuel d r false _ more
        (decode_maybe-waits 1 f (slice_of C f d r) d.state (omega (arith, short, read)) all_pass)
