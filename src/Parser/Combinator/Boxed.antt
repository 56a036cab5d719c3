-- ===== src/Parser/Combinator/Boxed.antt =====
-- src/parser/mod.rs and combinator.rs: what `boxed` and `by_ref` do to `attempt`.
use combine.Prelude.{◌≡◌, ◌∙◌, ok, false, Run, done, ◌>>=◌, ap, refl, out_of_fuel, panicked}
use combine.Error.Types.{Tracked, peek_err}
use combine.Error.Traits.{add_unexpected, unexpected}
use combine.Stream.Core.{Stream, IsResettable}
use combine.Parser.Core.Fresh.{reset_then-resettable}
use combine.Parser.Core.{
  Parser, settle, settle_peek, report_next, unexpected_next, drop_state, first_mode, Step, Outcome,
}
use combine.Parser.Core.Forward.{boxed}
use combine.Parser.Combinator.{attempt}

drop_bind :
    (S : Stream) {A P : Type 0} (m : Run (Step S A P)) (k : Outcome S A → Run (Outcome S A))
    → (m >>= λ r. k (drop_state S r)) ≡ ((m >>= λ r. done (drop_state S r)) >>= k)
drop_bind S (done r) k = refl
drop_bind S out_of_fuel k = refl
drop_bind S panicked k = refl

module _ {S : Stream} {A : Type 0} (p : Parser S A) where
  boxed-settles :
      (input : S.Input)
      → S.is_partial input ≡ false
      → (boxed (attempt p)).parse_stream input ≡ (
          (attempt p).parse_stream input >>= λ r.
          done (settle S (S.checkpoint input) p.reporter.add_error r))
  unfolding attempt boxed
  boxed-settles input complete = rw complete (
      drop_bind S ((attempt p).parse_mode_impl first_mode input p.default)
        λ r. done (settle S (S.checkpoint input) p.reporter.add_error r))

  -- On a complete input of a stream that honours its checkpoints, where `parse_stream` of `attempt(p)`
  -- fails with an error that commits to nothing, and the input has a next token: the boxed `attempt(p)`
  -- fails with that error, to which the token is added as unexpected, and then the errors of `p`, and
  -- leaves the input at its start.
  pub attempt-boxed :
      (input i behind : S.Input) (e : Tracked S.Error) (t : S.Token)
      → IsResettable S
      → S.is_partial input ≡ false
      → (attempt p).parse_stream input ≡ done (peek_err e, i)
      → S.uncons input ≡ (ok t, behind)
      → (boxed (attempt p)).parse_stream input
        ≡ done (
          peek_err (
              p.reporter.add_error (record e {
                error = S.parse_error.add (S.parse_error.stream_error.unexpected_token t) e.error;
              })),
          input,
        )
  unfolding settle settle_peek report_next unexpected_next add_unexpected unexpected
  attempt-boxed input i behind e t resettable complete failed next =
      boxed-settles input complete
      ∙ rw (failed, reset_then-resettable S resettable, next)
          (ap done (reset_then-resettable S resettable input behind _ _))
