-- ===== src/Stream/Positioned.antt =====
-- src/stream/position.rs: `Positioner` and `RangePositioner` as an interface, the index as a positioner,
-- and a stream beside a positioner.
pub mod Slices
mod Tests
use Prim.Native.Nat.{◌%◌}
use combine.Prelude.{◌≡◌, ℕ, ◌+◌, Bool, List, ◌==◌, ◌&&◌, Result, ok, err, Run, done, ◌>>=◌}
use combine.Error.Traits.{ParseError}
use combine.Stream.Core.{Stream, IsResettable}
use combine.Stream.Range.{RangeStream}
use combine.Stream.Position.{SourcePosition, source_start, update, update_range}

-- `Positioner<Item>` and `RangePositioner<Item, Range>`. `eq_position` is the `PartialEq` of positions.
pub record Positioner (Item Range : Type 0) : Type 1 where
  pub Self : Type 0
  pub Position : Type 0
  pub Checkpoint : Type 0
  pub default : Self
  pub position : Self → Position
  pub eq_position : Position → Position → Bool
  pub update : Item → Self → Self
  pub update_range : Range → Self → Self
  pub checkpoint : Self → Checkpoint
  pub reset : Checkpoint → Self → Self

-- `IndexPositioner`, whose `usize` has 64 bits; `len` is that of the trait `Range`.
abbrev pub index_positioner : (Item Range : Type 0) → (Range → ℕ) → Positioner Item Range
index_positioner Item Range len = record {
  Self = ℕ;
  Position = ℕ;
  Checkpoint = ℕ;
  default = 0;
  position = λ i. i;
  eq_position = ◌==◌;
  update = λ _ i. (i + 1) % 18446744073709551616;
  update_range = λ r i. (i + len r) % 18446744073709551616;
  checkpoint = λ i. i;
  reset = λ before _. before;
}

eq_source : SourcePosition → SourcePosition → Bool
eq_source a b = (a.line == b.line) && (a.column == b.column)

-- `SourcePosition` over characters or bytes of the code `code`; `codes` are those of a range.
unfoldable pub source_positioner :
    (Item Range : Type 0) → (Item → ℕ) → (Range → List ℕ) → Positioner Item Range
unfolding update update_range eq_source
source_positioner Item Range code codes = record {
  Self = SourcePosition;
  Position = SourcePosition;
  Checkpoint = SourcePosition;
  default = source_start;
  position = λ p. p;
  eq_position = eq_source;
  update = λ t p. update (code t) p;
  update_range = λ r p. update_range (codes r) p;
  checkpoint = λ p. p;
  reset = λ before _. before;
}

module _ (S : Stream) (X : Positioner S.Token S.Range) where
  -- The positioner moves where a token was read.
  abbrev moved :
      Result S.Token S.StreamErrorFor × S.Input
      → X.Self
      → Result S.Token S.StreamErrorFor × (S.Input × X.Self)
  moved (ok t, input) x = (ok t, (input, X.update t x))
  moved (err e, input) x = (err e, (input, x))

  abbrev reset_both :
      {E : Type 0}
      → Result (Unit {0}) E × S.Input
      → X.Self
      → X.Self
      → Result (Unit {0}) E × (S.Input × X.Self)
  reset_both (ok u, input) now back = (ok u, (input, back))
  reset_both (err e, input) now back = (err e, (input, now))

  -- `position::Stream`; the errors' position is the positioner's.
  unfoldable pub positioned :
      ParseError S.Token S.Range X.Position S.StreamErrorFor S.Error → Stream
  positioned parse_error = record {
    Input = S.Input × X.Self;
    Token = S.Token;
    Range = S.Range;
    Position = X.Position;
    StreamErrorFor = S.StreamErrorFor;
    Error = S.Error;
    Checkpoint = S.Checkpoint × X.Checkpoint;
    parse_error = parse_error;
    uncons = λ s. moved (S.uncons s.0) s.1;
    is_partial = λ s. S.is_partial s.0;
    position = λ s. X.position s.1;
    eq_position = X.eq_position;
    checkpoint = λ s. (S.checkpoint s.0, X.checkpoint s.1);
    reset = λ c s. reset_both (S.reset c.0 s.0) s.1 (X.reset c.1 s.1);
  }

module _ (R : RangeStream) (X : Positioner R.stream.Token R.stream.Range) where
  abbrev range_moved :
      Result R.stream.Range R.stream.StreamErrorFor × R.stream.Input
      → X.Self
      → Result R.stream.Range R.stream.StreamErrorFor × (R.stream.Input × X.Self)
  range_moved (ok r, input) x = (ok r, (input, X.update_range r x))
  range_moved (err e, input) x = (err e, (input, x))

  -- `uncons_range` of `position::Stream`.
  unfoldable pub positioned_range :
      ℕ
      → R.stream.Input × X.Self
      → Run (Result R.stream.Range R.stream.StreamErrorFor × (R.stream.Input × X.Self))
  positioned_range size s = do r ← R.uncons_range size s.0; done (range_moved r s.1)

-- A positioner that goes back to its checkpoints.
abbrev pub GoesBack : {Item Range : Type 0} → Positioner Item Range → Type 0
GoesBack X = (before now : X.Self) → X.reset (X.checkpoint before) now ≡ before

-- Where a stream and a positioner go back to their checkpoints, so does the stream beside the
-- positioner: the position is that of the place to which it went back.
pub positioned-IsResettable :
    (S : Stream) (X : Positioner S.Token S.Range)
    (parse_error : ParseError S.Token S.Range X.Position S.StreamErrorFor S.Error)
    → IsResettable S
    → GoesBack X
    → IsResettable (positioned S X parse_error)
unfolding positioned
positioned-IsResettable S X parse_error resettable goes_back before now =
    rw (resettable before.0 now.0, goes_back before.1 now.1)
