-- ===== src/Stream/Decoder/Bufferless.antt =====
-- src/stream/mod.rs: what `decode!` does, without its buffer: a decoder that looks at some of the
-- bytes, and takes from their front what the parser says that it has read.
use combine.Prelude.{
  ℕ, ◌≤◌, ◌≡◌, refl, sym, ap, ◌∙◌, Bool, true, false, not, List, [], ◌++◌, some, none, Result, ok,
  err, done, length, take, drop, append_assoc, Returns, ◌==◌, take-append-drop,
}
use combine.Error.Unexpected.{UnexpectedParse}
use combine.Stream.Decoder.{DecoderError, parse_failed, io_failed}
use combine.Stream.Slice.{Slice}
use combine.Stream.Range.{RangeStream}
use combine.Stream.Range.Slices.{slices}
use combine.Stream.Range.Wrappers.{maybe_partial_range}
use combine.Parser.Core.{Parser}
use combine.Parser.Core.Entry.{parse_with_state}
use combine.Parser.Decode.{decode}

abbrev pub bytes : RangeStream
bytes = maybe_partial_range (slices ℕ 1)

module _ {A : Type 0} (p : Parser bytes.stream A) where
  -- A parse leaves no more bytes than there were, and does not change whether more may come.
  abbrev pub Leaves :
      Slice ℕ × Bool → Result A UnexpectedParse × (Slice ℕ × Bool) × p.PartialState → Type 0
  Leaves before (x, after, st) =
      (length after.0.items ≤ length before.0.items) × (after.1 ≡ before.1)

  -- Each parse ends.
  abbrev pub Parses : Type 0
  Parses =
      (input : Slice ℕ × Bool) (st : p.PartialState)
      → Returns (Leaves input) (parse_with_state p input st)

  abbrev pub at : ℕ → List ℕ → Slice ℕ
  at pointer items = record { pointer = pointer; items = items }

  -- The decoder without a buffer: it looks at the bytes `xs`, of which `ys` are behind, and has seen the
  -- end where `ended`. Its result, the bytes that it has taken, those that are left, the state of
  -- the parser, the position, and whether it has then seen the end.
  pub data Decodes {E : Type 0}
      : List ℕ
        → List ℕ
        → Bool
        → p.PartialState
        → Result A (DecoderError UnexpectedParse ℕ E)
        → List ℕ
        → List ℕ
        → p.PartialState
        → ℕ
        → Bool
        → Type 0 where
    gives :
        {xs ys : List ℕ} {ended : Bool} {st st' : p.PartialState} {v : A} {n : ℕ}
        {input : Slice ℕ × Bool} (pointer : ℕ)
        → decode bytes p (at pointer xs, not ended) st ≡ done (ok (some v, n), input, st')
        → Decodes xs ys ended st
            (ok v)
            (take n xs)
            (drop n xs ++ ys)
            st'
            (bytes.stream.position input)
            ended
    fails :
        {xs ys : List ℕ} {ended : Bool} {st st' : p.PartialState} {e : UnexpectedParse}
        {input : Slice ℕ × Bool} (pointer : ℕ)
        → decode bytes p (at pointer xs, not ended) st ≡ done (err e, input, st')
        → Decodes xs ys ended st
            (err (parse_failed e))
            []
            (xs ++ ys)
            st'
            (bytes.stream.position input)
            ended
    breaks :
        {xs ys : List ℕ} {st st' : p.PartialState} {n : ℕ} {input : Slice ℕ × Bool} {e : E}
        (pointer : ℕ)
        → decode bytes p (at pointer xs, true) st ≡ done (ok (none, n), input, st')
        → Decodes xs ys false st
            (err (io_failed (bytes.stream.position input) e))
            (take n xs)
            (drop n xs ++ ys)
            st'
            (bytes.stream.position input)
            false
    reads :
        {xs ys ys' gone rest : List ℕ} {st st' st'' : p.PartialState} {n position : ℕ}
        {ended : Bool} {input : Slice ℕ × Bool} {x : Result A (DecoderError UnexpectedParse ℕ E)}
        (pointer : ℕ) (more : List ℕ)
        → decode bytes p (at pointer xs, true) st ≡ done (ok (none, n), input, st')
        → ys ≡ more ++ ys'
        → (length more ≡ 0 → ys ≡ [])
        → Decodes (drop n xs ++ more) ys' (length more == 0) st' x gone rest st'' position ended
        → Decodes xs ys false st x (take n xs ++ gone) rest st'' position ended

  -- What it takes is the front, and what is left is behind that.
  pub Decodes-gone :
      {E : Type 0} {xs ys : List ℕ} {ended : Bool} {st : p.PartialState}
      {x : Result A (DecoderError UnexpectedParse ℕ E)} {gone rest : List ℕ} {st' : p.PartialState}
      {position : ℕ} {ended' : Bool}
      → Decodes xs ys ended st x gone rest st' position ended'
      → xs ++ ys ≡ gone ++ rest
  Decodes-gone (gives {xs = xs} {ys = ys} {n = n} pointer ran) =
      ap (λ zs. zs ++ ys) (sym (take-append-drop n xs)) ∙ append_assoc (take n xs) (drop n xs) ys
  Decodes-gone (fails pointer ran) = refl
  Decodes-gone (breaks {xs = xs} {ys = ys} {n = n} pointer ran) =
      ap (λ zs. zs ++ ys) (sym (take-append-drop n xs)) ∙ append_assoc (take n xs) (drop n xs) ys
  Decodes-gone
        (reads {xs = xs} {ys = ys} {ys' = ys'} {gone = gone} {rest = rest} {n = n} pointer more ran
          split ends run) =
      ap (λ zs. zs ++ ys) (sym (take-append-drop n xs))
      ∙ append_assoc (take n xs) (drop n xs) ys
      ∙ ap (λ zs. take n xs ++ zs)
          (ap (λ zs. drop n xs ++ zs) split
            ∙ sym (append_assoc (drop n xs) more ys')
            ∙ Decodes-gone run)
      ∙ sym (append_assoc (take n xs) gone rest)
