-- ===== src/Stream/Ops.antt =====
-- src/stream/mod.rs: the functions over any stream.
use combine.Prelude.{Bool, true, false, ◌&&◌, Result, ok, err, if◌then◌else◌}
use combine.Error.Types.{ParseResult, commit_ok, commit_err, peek_err, tracked}
use combine.Stream.Core.{Stream}

module _ (S : Stream) where
  unfoldable pub wrap_stream_error :
      {A : Type 0} → S.Input → S.StreamErrorFor → ParseResult A S.Error
  wrap_stream_error input e =
      let e' = S.parse_error.from_error (S.position input) e in
      if S.is_partial input then commit_err e' else peek_err (tracked e')

  uncons_result : Result S.Token S.StreamErrorFor × S.Input → ParseResult S.Token S.Error × S.Input
  uncons_result (ok x, input) = (commit_ok x, input)
  uncons_result (err e, input) = (wrap_stream_error input e, input)

  unfoldable pub uncons : S.Input → ParseResult S.Token S.Error × S.Input
  unfolding wrap_stream_error uncons_result
  uncons input = uncons_result (S.uncons input)

  is_end_of_input : Result S.Token S.StreamErrorFor → Bool
  is_end_of_input (ok _) = false
  is_end_of_input (err e) = S.parse_error.stream_error.is_unexpected_end_of_input e

  is_reset : {A : Type 0} → Result A S.Error → Bool
  is_reset (ok _) = true
  is_reset (err _) = false

  unfoldable pub input_at_eof : S.Input → Bool × S.Input
  unfolding is_end_of_input is_reset
  input_at_eof input =
      let before = S.checkpoint input in
      let (x, input₁) = S.uncons input in
      let (r, input₂) = S.reset before input₁ in (is_reset r && is_end_of_input x, input₂)
