-- ===== src/Stream/Position.antt =====
-- src/stream/position.rs: the positioners. A token is its code, a `char` or a `u8`; an `i32` and a
-- `usize` are the numbers of their bits, and their sums wrap, as a release build computes them.
pub mod Lines
use Prim.Native.Nat.{◌%◌}
use combine.Prelude.{ℕ, ◌+◌, Bool, List, [], ◌∷◌, ◌==◌, if◌then◌else◌}

abbrev pub newline : ℕ
newline = 10

-- `SourcePosition`.
pub record SourcePosition : Type 0 where
  pub line : ℕ
  pub column : ℕ

-- `SourcePosition::default()`.
abbrev pub source_start : SourcePosition
source_start = record { line = 1; column = 1 }

-- `Positioner::update`.
unfoldable pub update : ℕ → SourcePosition → SourcePosition
update c self =
    if c == newline
    then record { line = (self.line + 1) % 4294967296; column = 1 }
    else record { line = self.line; column = (self.column + 1) % 4294967296 }

-- `RangePositioner::update_range`.
unfoldable pub update_range : List ℕ → SourcePosition → SourcePosition
unfolding update
update_range [] self = self
update_range (c ∷ cs) self = update_range cs (update c self)
