-- ===== src/Stream/Easy/Ranges.antt =====
-- src/stream/easy.rs: `easy::Stream` as a range stream. It forwards to the stream inside, and converts
-- the errors.
use combine.Prelude.{Bool, done, ◌>>=◌}
use Prim.Native.Nat.{Ordering}
use combine.Error.ParseResult
use combine.Stream.Range.{RangeStream}
use combine.Stream.Easy.{EasyError, Errors}
use combine.Stream.Easy.Convert.{convert, easy_stream}

module _ {X : Type 0} (R : RangeStream) (cmp : R.stream.Position → R.stream.Position → Ordering)
    (eq_token : R.stream.Token → R.stream.Token → Bool)
    (eq_range : R.stream.Range → R.stream.Range → Bool)
    (stream_into_other : R.stream.StreamErrorFor → EasyError R.stream.Token R.stream.Range X)
    (error_into_other : R.stream.Error
      → Errors R.stream.Token R.stream.Range X R.stream.Position) where
  unfoldable easy_range : RangeStream
  unfolding easy_stream ParseResult.map_err
  easy_range = record {
    stream = easy_stream R.stream cmp eq_token eq_range stream_into_other error_into_other;
    uncons_range = λ n i. do
      (r, i') ← R.uncons_range n i
      done (convert stream_into_other r, i');
    uncons_while = λ f i. do
      (r, i') ← R.uncons_while f i
      done (convert stream_into_other r, i');
    uncons_while1 = λ f i. do
      (r, i') ← R.uncons_while1 f i
      done (ParseResult.map_err stream_into_other r, i');
    distance = λ i c. R.distance i c;
    range = λ i. R.range i;
    len = R.len;
  }
