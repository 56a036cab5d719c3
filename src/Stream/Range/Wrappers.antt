-- ===== src/Stream/Range/Wrappers.antt =====
-- src/stream/mod.rs: `PartialStream`, `CompleteStream` and `MaybePartialStream`, and
-- src/stream/state.rs: a stream with a state of the user's beside it.
use combine.Prelude.{Bool, true, false, ◌>>=◌, done}
use combine.Stream.Core.{Stream}
use combine.Stream.Range.{RangeStream}

-- `PartialStream` and `CompleteStream` over a stream: only `is_partial` differs.
abbrev pub partial_stream : Stream → Stream
partial_stream S = record S { is_partial = λ _. true }

abbrev pub complete_stream : Stream → Stream
complete_stream S = record S { is_partial = λ _. false }

-- The same over a range stream.
abbrev pub partial_range : RangeStream → RangeStream
partial_range R = record R { stream = partial_stream R.stream }

abbrev pub complete_range : RangeStream → RangeStream
complete_range R = record R { stream = complete_stream R.stream }

-- A stream with a value beside it that no method changes: `reset` leaves it as it is.
abbrev pub beside : (U : Type 0) (S : Stream) → (S.Input → U → Bool) → Stream
beside U S partial_end = record S {
  Input = S.Input × U;
  uncons = λ i. ((S.uncons i.0).0, ((S.uncons i.0).1, i.1));
  is_partial = λ i. partial_end i.0 i.1;
  position = λ i. S.position i.0;
  checkpoint = λ i. S.checkpoint i.0;
  reset = λ c i. ((S.reset c i.0).0, ((S.reset c i.0).1, i.1));
}

abbrev pub beside_range : (U : Type 0) (R : RangeStream) → (R.stream.Input → U → Bool) → RangeStream
beside_range U R partial_end = record {
  stream = beside U R.stream partial_end;
  uncons_range = λ n i. (do (r, i') ← R.uncons_range n i.0; done (r, (i', i.1)));
  uncons_while = λ f i. (do (r, i') ← R.uncons_while f i.0; done (r, (i', i.1)));
  uncons_while1 = λ f i. (do (r, i') ← R.uncons_while1 f i.0; done (r, (i', i.1)));
  distance = λ i c. R.distance i.0 c;
  range = λ i. R.range i.0;
  len = R.len;
}

-- `MaybePartialStream(stream, is_partial)`.
abbrev pub maybe_partial : Stream → Stream
maybe_partial S = beside Bool S (λ _ partial. partial)

abbrev pub maybe_partial_range : RangeStream → RangeStream
maybe_partial_range R = beside_range Bool R (λ _ partial. partial)

-- `state::Stream { stream, state }`.
abbrev pub state_stream : Type 0 → Stream → Stream
state_stream U S = beside U S (λ i _. S.is_partial i)

abbrev pub state_range : Type 0 → RangeStream → RangeStream
state_range U R = beside_range U R (λ i _. R.stream.is_partial i)

-- `&mut I`: every method forwards to the stream behind the reference.
abbrev pub by_ref : Stream → Stream
by_ref S = record S {
  uncons = λ i. S.uncons i;
  is_partial = λ i. S.is_partial i;
  position = λ i. S.position i;
  checkpoint = λ i. S.checkpoint i;
  reset = λ c i. S.reset c i;
}

abbrev pub by_ref_range : RangeStream → RangeStream
by_ref_range R = record {
  stream = by_ref R.stream;
  uncons_range = λ n i. R.uncons_range n i;
  uncons_while = λ f i. R.uncons_while f i;
  uncons_while1 = λ f i. R.uncons_while1 f i;
  distance = λ i c. R.distance i c;
  range = λ i. R.range i;
  len = R.len;
}
