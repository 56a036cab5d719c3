-- ===== src/Parser/Sequence/Then.antt =====
-- src/parser/sequence.rs: `Then`, `ThenPartial` and `ThenRef`, whose second parser is made from the
-- value of the first.
pub mod Commits
use combine.Prelude.{
  Bool, true, false, not, ◌&&◌, Option, some, none, Run, done, panicked, ◌>>=◌, if◌then◌else◌,
}
use combine.Error.Types.{Tracked, tracked, ParseResult, commit_ok, peek_ok, commit_err, peek_err}
use combine.Stream.Core.{Stream}
use combine.Parser.Core.{
  Parser, Reporter, ParseMode, is_first, set_first, Step, parse_mode, resumable,
}
use combine.Parser.Repeat.Iter.{ok_value}

-- The parser that the function makes: its `parse_committed_mode`, over the type of state that every
-- parser the function makes has.
pub record Next (S : Stream) (B Q : Type 0) : Type 0 where
  pub parse_committed_mode : ParseMode → S.Input → Q → Run (Step S B Q)

abbrev pub next : {S : Stream} {B : Type 0} (p : Parser S B) → Next S B p.PartialState
next p = record { parse_committed_mode = p.parse_committed_mode }

-- The states of the parsers, and what is kept of the first value, with whether it was committed.
pub record ThenState (P C Q : Type 0) : Type 0 where
  pub p_state : P
  pub cache : Option (Bool × C)
  pub n_state : Q

abbrev pub start_then : {P C Q : Type 0} → P → Q → ThenState P C Q
start_then p q = record { p_state = p; cache = none; n_state = q }

-- What is kept is of type `C`; `run` gives the second parser, and may change what is kept.
module _ {S : Stream} {A B C Q R : Type 0} (make : A → C) (run : C → Next S B Q × C)
    (pack : C → B → R) where
  -- The second parser's result: where the first had committed, so has the whole.
  unfoldable pub then_result : {P : Type 0} → P → Bool → C → Step S B Q → Step S R (ThenState P C Q)
  then_result st committed kept (peek_ok x, input, q) =
      (ok_value committed (pack kept x), input, start_then st q)
  then_result st committed kept (commit_ok x, input, q) =
      (commit_ok (pack kept x), input, start_then st q)
  then_result st committed kept (peek_err e, input, q) =
      (if committed then commit_err e.error else peek_err e, input, start_then st q)
  then_result st committed kept (commit_err e, input, q) =
      (commit_err e, input, record { p_state = st; cache = some (committed, kept); n_state = q })

  unfoldable pub then_second :
      {P : Type 0} → ParseMode → S.Input → P → Bool → C → Q → Run (Step S R (ThenState P C Q))
  unfolding then_result
  then_second mode input st committed kept q = do
    r ← (run kept).0.parse_committed_mode mode input q
    done (then_result st committed (run kept).1 r)

  unfoldable pub then_first :
      {P : Type 0} → ParseMode → Q → Step S A P → Run (Step S R (ThenState P C Q))
  unfolding then_second set_first
  then_first mode q (peek_ok v, input, st) = then_second (set_first mode) input st false (make v) q
  then_first mode q (commit_ok v, input, st) = then_second (set_first mode) input st true (make v) q
  then_first mode q (peek_err e, input, st) = done (peek_err e, input, start_then st q)
  then_first mode q (commit_err e, input, st) = done (commit_err e, input, start_then st q)

  -- In the first mode nothing may be kept: `debug_assert!`.
  unfoldable pub then_step :
      (p : Parser S A)
      → ParseMode
      → S.Input
      → ThenState p.PartialState C Q
      → Run (Step S R (ThenState p.PartialState C Q))
  unfolding then_first then_second parse_mode is_first
  then_step p mode input st = elim st.cache [
    | none ↦ do r ← parse_mode p mode input st.p_state; then_first mode st.n_state r
    | some kept ↦
        if is_first mode
        then panicked
        else then_second mode input st.p_state kept.0 kept.1 st.n_state
  ]

  unfoldable pub then_with : Q → Parser S A → Parser S R
  unfolding then_step resumable
  then_with q p = resumable S (start_then p.default q) (then_step p) (record {
    add_error = p.reporter.add_error;
    add_committed_expected_error = λ e. e;
    parser_count = 1;
  })

module _ {S : Stream} {A B Q : Type 0} where
  -- `Then` keeps the parser that the function made.
  unfoldable pub then_parser : Q → Parser S A → (A → Next S B Q) → Parser S B
  unfolding then_with
  then_parser q p f = then_with f (λ n. (n, n)) (λ _ x. x) q p

  -- `ThenPartial` keeps the value, which the function may change, and makes the parser again.
  unfoldable pub then_partial : Q → Parser S A → (A → Next S B Q × A) → Parser S B
  unfolding then_with
  then_partial q p f = then_with (λ v. v) f (λ _ x. x) q p

  -- `ThenRef` keeps the value and the parser, and gives both values.
  unfoldable pub then_ref : Q → Parser S A → (A → Next S B Q) → Parser S (A × B)
  unfolding then_with
  then_ref q p f =
      then_with {C = A × Next S B Q} (λ v. (v, f v)) (λ c. (c.1, c)) (λ c x. (c.0, x)) q p
