-- ===== src/Stream/Decoder/Refines.antt =====
-- src/stream/mod.rs: `decode!` of any parser, against the decoder without a buffer.
use combine.Prelude.{
  ℕ, zero, suc, ◌+◌, ◌≤◌, ◌<◌, ◌≡◌, refl, sym, ap, subst, ◌∙◌, Bool, true, false, not, List, [],
  ◌∷◌, ◌++◌, some, none, Result, ok, err, Run, done, length, take, drop, arith, Returns,
  Returns-bind, Returns-map, Returns-inv, ◌==◌, if◌then◌else◌, length-append, bind_assoc,
}
use combine.Error.Unexpected.{UnexpectedParse}
use combine.Stream.Bytes.{BytesMut}
use combine.Stream.BufReader.{CombineBuffer}
use combine.Stream.BufReader.Contract.{IsLawful, buffered, Extends}
use combine.Stream.Decoder.{
  DecoderError, io_failed, DecoderOf, DecodeResult, decode_loop, decoded, removed, read_on, advance,
  before_parse, read_result, stream_of,
}
use combine.Stream.Slice.{Slice}
use combine.Parser.Core.{Parser}
use combine.Parser.Decode.{Decoded, decode}
use combine.Stream.Decoder.Bufferless.{
  bytes, Parses, at, Decodes, gives, fails, breaks, reads, Decodes-gone,
}
use combine.Stream.Decoder.Within.{Within, decode-Within}

if_true : (b : Bool) → (if b then true else false) ≡ b
if_true true = refl
if_true false = refl

not-zero : (n : ℕ) → (suc n == 0) ≡ false
not-zero n = ground arith

not-true : (b : Bool) → not b ≡ true → b ≡ false
not-true true h = cc
not-true false h = refl

-- A read that gives bytes leaves fewer, and one that gives none finds the end.
reads_fewer :
    (new ys ys' : List ℕ)
    → ys ≡ new ++ ys'
    → (length new ≡ 0 → ys ≡ [])
    → length ys' + (if length new == 0 then 0 else 1) < length ys + 1
reads_fewer [] ys ys' split ends =
    let none_left : ys' ≡ [] = sym split ∙ ends refl in omega (arith, ap length none_left)
reads_fewer (y ∷ new) ys ys' split ends =
    rw (not-zero (length new), split) (omega (arith, length-append new ys'))

module _ {B : BytesMut} {E : Type 0} {C : CombineBuffer B E} {unread : C.Reader → List ℕ}
    (lawful : IsLawful C unread) {A : Type 0} (p : Parser bytes.stream A) where
  abbrev pub State : Type 0
  State = DecoderOf C bytes (λ input _. input) p

  abbrev pub Outcome : Type 0
  Outcome = DecodeResult C bytes (λ input _. input) p

  abbrev held : State → C.Reader → List ℕ
  held d r = buffered C unread d.buffer r

  abbrev pub all_bytes : State → C.Reader → List ℕ
  all_bytes d r = held d r ++ unread r

  -- The reads that are left, one of which finds the end.
  abbrev pub reads_left : State → C.Reader → ℕ
  reads_left d r = length (unread r) + (if d.end_of_input then 0 else 1)

  -- The result, the decoder and the bytes that are left are those of the decoder without a buffer.
  abbrev Follows : State → C.Reader → Outcome → Type 0
  Follows d r (x, d', r') =
      (gone : List ℕ) × Decodes p (held d r) (unread r) d.end_of_input d.state x gone
        (all_bytes d' r') d'.state d'.position d'.end_of_input

  -- The parser has asked for more.
  module _ (d : State) (r : C.Reader) {n : ℕ} {input : Slice ℕ × Bool} {st : p.PartialState}
      (pointer : ℕ) (more : d.end_of_input ≡ false)
      (ran : decode bytes p (at p pointer (held d r), true) d.state
        ≡ done (ok (none, n), input, st))
      (c₁ : C.Self) (r₁ : C.Reader) (dropped : buffered C unread c₁ r₁ ≡ drop n (held d r))
      (same : unread r₁ ≡ unread r) where
    abbrev waiting : State
    waiting = record {
      position = bytes.stream.position input;
      state = st;
      buffer = c₁;
      end_of_input = d.end_of_input;
    }

    after_read :
        (fuel : ℕ) (next : State → C.Reader → Run Outcome)
        → ((d' : State) (r' : C.Reader)
            → reads_left d' r' < fuel
            → Returns (Follows d' r') (next d' r'))
        → reads_left d r < suc fuel
        → (x : Result ℕ E × C.Self × C.Reader) → Extends C unread c₁ r₁ x
        → Returns
            (Follows d r)
            (read_on C bytes (λ input _. input) p next (read_result C waiting x))
    unfolding read_on
    after_read fuel next rest h (err e, c, r') (kept, left) =
        let now : buffered C unread c r' ++ unread r' ≡ drop n (held d r) ++ unread r =
          ap (λ zs. zs ++ unread r') (kept ∙ dropped)
          ∙ ap (λ zs. drop n (held d r) ++ zs) (left ∙ same) in
        let x : Result A (DecoderError UnexpectedParse ℕ E) =
          err (io_failed (bytes.stream.position input) e) in
        (
          take n (held d r),
          subst
              (λ b.
                Decodes p (held d r) (unread r) b d.state x (take n (held d r))
                  (buffered C unread c r' ++ unread r') st (bytes.stream.position input) b)
              (sym more)
              (subst
                (λ zs.
                  Decodes p (held d r) (unread r) false d.state x (take n (held d r)) zs st
                    (bytes.stream.position input) false)
                (sym now) (breaks pointer ran)),
        )
    after_read fuel next rest h (ok k, c, r') (new, counted, kept, split, ends) =
        let d' : State = record waiting {
          buffer = c;
          end_of_input = if k == 0 then true else d.end_of_input;
        } in
        let ended : d'.end_of_input ≡ (length new == 0) =
          rw (counted, more) (if_true (length new == 0)) in
        let held' : held d' r' ≡ drop n (held d r) ++ new = kept ∙ ap (λ ys. ys ++ new) dropped in
        let split' : unread r ≡ new ++ unread r' = sym same ∙ split in
        let ends' : length new ≡ 0 → unread r ≡ [] = λ z. sym same ∙ ends (counted ∙ z) in
        let fewer : reads_left d' r' < reads_left d r =
          rw (ended, more) (reads_fewer new (unread r) (unread r') split' ends') in
        Returns-map (Follows d' r') (Follows d r) (next d' r')
          (λ y run. (
            take n (held d r) ++ run.0,
            subst
                (λ b.
                  Decodes p (held d r) (unread r) b d.state y.0 (take n (held d r) ++ run.0)
                    (all_bytes y.1 y.2) y.1.state y.1.position y.1.end_of_input)
                (sym more)
                (reads pointer new ran split' ends' (
                  subst
                    (λ b.
                      Decodes p (drop n (held d r) ++ new) (unread r') b st y.0 run.0
                        (all_bytes y.1 y.2) y.1.state y.1.position y.1.end_of_input)
                    ended
                    (subst
                      (λ zs.
                        Decodes p zs (unread r') d'.end_of_input st y.0 run.0 (all_bytes y.1 y.2)
                          y.1.state y.1.position y.1.end_of_input)
                      held' run.1))),
          ))
          (rest d' r' (omega (arith, fewer, h)))

  module _ (fuel : ℕ) (next : State → C.Reader → Run Outcome)
      (rest : (d' : State) (r' : C.Reader)
        → reads_left d' r' < fuel
        → Returns (Follows d' r') (next d' r'))
      (d : State) (r : C.Reader) (h : reads_left d r < suc fuel) (pointer : ℕ) where
    -- The parser has read `n` bytes and asks for more.
    waits :
        (n : ℕ) (input : Slice ℕ × Bool) (st : p.PartialState)
        → decode bytes p (at p pointer (held d r), not d.end_of_input) d.state
          ≡ done (ok (none, n), input, st)
        → n ≤ length (held d r)
        → d.end_of_input ≡ false
        → Returns
            (Follows d r)
            (decoded C bytes (λ input _. input) p next d r (ok (none, n), input, st))
    unfolding decoded advance removed before_parse
    waits n input st ran fits more =
        let (c₁, r₁, advanced, dropped, same) = lawful.advance_lem n d.buffer r fits in
        let ran' =
          subst
            (λ b.
              decode bytes p (at p pointer (held d r), not b) d.state
              ≡ done (ok (none, n), input, st))
            more ran in
        rw (advanced, bind_assoc (C.extend_buf c₁ r₁))
          (Returns-bind (Extends C unread c₁ r₁) (Follows d r) (C.extend_buf c₁ r₁)
            (λ x.
              read_on C bytes (λ input _. input) p next
                (read_result C (waiting d r pointer more ran' c₁ r₁ dropped same) x))
            (lawful.extend_lem c₁ r₁)
            (after_read d r pointer more ran' c₁ r₁ dropped same fuel next rest h))

    -- What follows a parse.
    decoded-Follows :
        (x : Decoded bytes A p.PartialState)
        → decode bytes p (at p pointer (held d r), not d.end_of_input) d.state ≡ done x
        → Within p (at p pointer (held d r), not d.end_of_input) x
        → Returns (Follows d r) (decoded C bytes (λ input _. input) p next d r x)
    unfolding decoded advance removed
    decoded-Follows (err e, input, st) ran within = ([], fails pointer ran)
    decoded-Follows (ok (some v, n), input, st) ran within =
        let (c, r', advanced, dropped, same) = lawful.advance_lem n d.buffer r within in
        let left : drop n (held d r) ++ unread r ≡ buffered C unread c r' ++ unread r' =
          rw (dropped, same) refl in
        let result : Result A (DecoderError UnexpectedParse ℕ E) = ok v in
        rw advanced (
          take n (held d r),
          subst
              (λ zs.
                Decodes p (held d r) (unread r) d.end_of_input d.state result (take n (held d r)) zs
                  st (bytes.stream.position input) d.end_of_input)
              left (gives pointer ran),
        )
    decoded-Follows (ok (none, n), input, st) ran within =
        waits n input st ran within.0 (not-true d.end_of_input within.1)

  decode_loop-Follows :
      Parses p
      → (fuel : ℕ) (d : State) (r : C.Reader) → reads_left d r < fuel
      → Returns (Follows d r) (decode_loop C bytes (λ input _. input) p fuel d r)
  unfolding decode_loop stream_of
  decode_loop-Follows parses zero d r h = absurd (omega (arith, h))
  decode_loop-Follows parses (suc fuel) d r h =
      let pointer = B.as_ptr (C.buffer d.buffer r) in
      let (x, ran, within) =
        Returns-inv (Within p (at p pointer (held d r), not d.end_of_input))
          (decode bytes p (at p pointer (held d r), not d.end_of_input) d.state)
          (decode-Within p parses (at p pointer (held d r), not d.end_of_input) d.state) in
      rw ran (
        decoded-Follows fuel (decode_loop C bytes (λ input _. input) p fuel)
          (decode_loop-Follows parses fuel) d r h pointer x ran within)

  -- As `Follows`, and the bytes that are gone are the front of all bytes.
  abbrev pub Refines : State → C.Reader → Outcome → Type 0
  Refines d r (x, d', r') =
      (gone : List ℕ) × (all_bytes d r ≡ gone ++ all_bytes d' r')
      × Decodes p (held d r) (unread r) d.end_of_input d.state x gone (all_bytes d' r') d'.state
          d'.position d'.end_of_input

  -- Over a buffer that does what a decoder relies on, where each parse of the parser ends, with no more
  -- bytes left than there were, `decode!`, with fuel above the reads that are left, ends, and does what
  -- `Decodes`, the decoder without a buffer, does: each parse starts at the first byte that is not gone,
  -- in the state that the one before left; what it says that it has read is what goes from the front,
  -- and nothing where it fails; where it asks for more the next bytes come behind those that are left,
  -- or the error of the reader ends the loop. The bytes in the buffer and those yet to come are at the
  -- end all but those that have gone, the position is that where the last parse ended, and the decoder
  -- has seen the end where it had before, or where the last read gave nothing.
  pub decode_loop-Refines :
      Parses p
      → (fuel : ℕ) (d : State) (r : C.Reader) → reads_left d r < fuel
      → Returns (Refines d r) (decode_loop C bytes (λ input _. input) p fuel d r)
  decode_loop-Refines parses fuel d r h =
      Returns-map (Follows d r) (Refines d r) (decode_loop C bytes (λ input _. input) p fuel d r)
        (λ y run. (run.0, Decodes-gone p run.1, run.1)) (decode_loop-Follows parses fuel d r h)
