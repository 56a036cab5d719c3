-- ===== src/Stream/Core.antt =====
-- src/stream/mod.rs: the traits `StreamOnce`, `ResetStream` and `Positioned`, which together are
-- `Stream`, as one interface; and what it means for a stream to honour checkpoints.
use combine.Prelude.{◌≡◌, Bool, false, Result, ok}
use combine.Error.Traits.{ParseError}

-- `&mut self` is the argument `Input`, returned beside the result. `eq_position` is the `PartialEq`
-- of positions.
pub record Stream : Type 1 where
  pub Input : Type 0
  pub Token : Type 0
  pub Range : Type 0
  pub Position : Type 0
  pub StreamErrorFor : Type 0
  pub Error : Type 0
  pub Checkpoint : Type 0
  pub parse_error : ParseError Token Range Position StreamErrorFor Error
  pub uncons : Input → Result Token StreamErrorFor × Input
  pub is_partial : Input → Bool
  pub position : Input → Position
  pub eq_position : Position → Position → Bool
  pub checkpoint : Input → Checkpoint
  pub reset : Checkpoint → Input → Result (Unit {0}) Error × Input

-- A reset to a checkpoint gives back the input as it was when the checkpoint was taken.
abbrev pub IsResettable : Stream → Type 0
IsResettable S = (before now : S.Input) → S.reset (S.checkpoint before) now ≡ (ok tt, before)

-- No more input can come than there is.
abbrev pub IsComplete : Stream → Type 0
IsComplete S = (input : S.Input) → S.is_partial input ≡ false
