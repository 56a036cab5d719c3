-- ===== src/Parser/Sequence/Then/Commits.antt =====
-- src/parser/sequence.rs: what the parsers made by a function commit to.
use combine.Prelude.{◌≡◌, refl, Bool, true, false, Run, done, out_of_fuel, panicked, ◌>>=◌, Ensures}
use combine.Error.Types.{ParseResult, commit_ok, peek_ok, commit_err, peek_err}
use combine.Stream.Core.{Stream}
use combine.Parser.Core.{Parser, ParseMode, first_mode, is_first, set_first, Step, parse_mode}
use combine.Parser.Sequence.Then.{Next, then_with, then_step, then_first, then_second, then_result}

-- Whether a result says that input was committed to.
unfoldable pub is_committed : {A E : Type 0} → ParseResult A E → Bool
is_committed (commit_ok x) = true
is_committed (peek_ok x) = false
is_committed (commit_err e) = true
is_committed (peek_err e) = false

module _ {S : Stream} {A B C Q R : Type 0} (make : A → C) (run : C → Next S B Q × C)
    (pack : C → B → R) where
  result-committed :
      {P : Type 0} (st : P) (kept : C) (r : Step S B Q)
      → is_committed (then_result make run pack st true kept r).0 ≡ true
  unfolding then_result is_committed
  result-committed st kept (commit_ok x, input, q) = refl
  result-committed st kept (peek_ok x, input, q) = refl
  result-committed st kept (commit_err e, input, q) = refl
  result-committed st kept (peek_err e, input, q) = refl

  second-committed :
      {P : Type 0} (mode : ParseMode) (input : S.Input) (st : P) (kept : C) (q : Q)
      → Ensures (λ r. is_committed r.0 ≡ true) (then_second make run pack mode input st true kept q)
  unfolding then_second
  second-committed mode input st kept q = go ((run kept).0.parse_committed_mode mode input q)
    where
      go :
          (m : Run (Step S B Q))
          → Ensures
              (λ r. is_committed r.0 ≡ true)
              (m >>= λ r. done (then_result make run pack st true (run kept).1 r))
      go (done r) = result-committed st (run kept).1 r
      go out_of_fuel = tt
      go panicked = tt

  -- Where the first parser has committed, so has the whole, whatever the second does.
  pub then_with-commits :
      (q : Q) (p : Parser S A) (input input' : S.Input) (v : A) (st : p.PartialState)
      → p.parse_mode_impl first_mode input p.default ≡ done (commit_ok v, input', st)
      → Ensures
          (λ r. is_committed r.0 ≡ true)
          ((then_with make run pack q p).parse_mode_impl first_mode input
            (then_with make run pack q p).default)
  unfolding then_with then_step then_first parse_mode set_first is_first
  then_with-commits q p input input' v st ran =
      rw ran (second-committed first_mode input' st (make v) q)
