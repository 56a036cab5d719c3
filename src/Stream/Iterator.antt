-- ===== src/Stream/Iterator.antt =====
-- src/stream/mod.rs: `IteratorStream`, over an iterator's `next`, and the stream beside a positioner
-- (src/stream/position.rs) over it, which a buffered stream reads.
use combine.Prelude.{Option, some, none, Result, ok, err}
use combine.Error.Unexpected.{UnexpectedParse, eoi}
use combine.Stream.Buffered.{Source}
use combine.Stream.Positioned.{Positioner}

module _ {I T : Type 0} (next : I → Option T × I) where
  abbrev item_or_end : Option T × I → Result T UnexpectedParse × I
  item_or_end (some x, i) = (ok x, i)
  item_or_end (none, i) = (err eoi, i)

  unfoldable pub iterator_uncons : I → Result T UnexpectedParse × I
  iterator_uncons i = item_or_end (next i)

  module _ (X : Positioner T T) where
    abbrev token_moved :
        Result T UnexpectedParse × I → X.Self → Result T UnexpectedParse × (I × X.Self)
    token_moved (ok t, i) x = (ok t, (i, X.update t x))
    token_moved (err e, i) x = (err e, (i, x))

    unfoldable pub positioned_iterator : Source (I × X.Self) T X.Position UnexpectedParse
    unfolding iterator_uncons
    positioned_iterator = record {
      uncons = λ s. token_moved (iterator_uncons s.0) s.1;
      position = λ s. X.position s.1;
    }
