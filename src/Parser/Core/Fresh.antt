-- ===== src/Parser/Core/Fresh.antt =====
-- src/parser/mod.rs: one parse from the start, `parse_first` with a fresh state, as `parse_lazy` makes
-- it on an input that is complete; and what a reset does on a stream that honours checkpoints.
use combine.Prelude.{◌≡◌, Run, done, out_of_fuel, panicked, ◌>>=◌, ap, done-injective}
use combine.Error.Types.{ParseResult}
use combine.Stream.Core.{Stream, IsResettable}
use combine.Parser.Core.{Parser, first_mode, reset_then, Outcome, Step, drop_state}

drop-inv :
    (S : Stream) {A P : Type 0} (m : Run (Step S A P)) (r : ParseResult A S.Error) (input : S.Input)
    → (m >>= λ x. done (drop_state S x)) ≡ done (r, input)
    → (st : P) × (m ≡ done (r, input, st))
drop-inv S {A} (done (r', input', st)) r input h =
    (st, ap (λ (x : ParseResult A S.Error × S.Input). done (x.0, x.1, st)) (done-injective h))
drop-inv S out_of_fuel r input h = cc
drop-inv S panicked r input h = cc

module _ {S : Stream} {A : Type 0} where
  unfoldable pub parse_fresh : Parser S A → S.Input → Run (Outcome S A)
  parse_fresh p input = do r ← p.parse_mode_impl first_mode input p.default; done (drop_state S r)

  pub parse_fresh-inv :
      (p : Parser S A) (input input' : S.Input) (r : ParseResult A S.Error)
      → parse_fresh p input ≡ done (r, input')
      → (st : p.PartialState) × (p.parse_mode_impl first_mode input p.default
          ≡ done (r, input', st))
  unfolding parse_fresh
  parse_fresh-inv p input input' r h =
      drop-inv S (p.parse_mode_impl first_mode input p.default) r input' h

pub reset_then-resettable :
    (S : Stream) {X : Type 0}
    → IsResettable S
    → (before now : S.Input) (fail : S.Error → S.Input → X) (k : S.Input → X)
    → reset_then S (S.checkpoint before) now fail k ≡ k before
unfolding reset_then
reset_then-resettable S resettable before now fail k = rw (resettable, reset_then)
