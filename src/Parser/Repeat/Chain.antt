-- ===== src/Parser/Repeat/Chain.antt =====
-- src/parser/repeat.rs: `Chainl1` and `Chainr1`. The loops have fuel.
pub mod Fold
pub mod FoldRight
use combine.Prelude.{ℕ, zero, suc, Option, some, none, ok, Run, done, out_of_fuel, ◌>>=◌}
use combine.Error.Types.{
  Commit, commit, peek, Tracked, ParseResult, commit_ok, peek_ok, commit_err, peek_err,
}
use combine.Error.Commit.{merge}
use combine.Error.ParseResult.{from}
use combine.Stream.Core.{Stream}
use combine.Parser.Core.{
  Parser, ParseMode, resume_mode, set_first, Step, Outcome, parse_mode, resumable, leaf, reset_then,
}
use combine.Parser.Sequence.Build.{pair}

module _ {S : Stream} {A : Type 0} (p : Parser S A) (op : Parser S (A → A → A)) where
  -- `l_state`, and the state of the operator with the parser.
  abbrev pub ChainState : Type 0
  ChainState = Option (A × Commit (Unit {0})) × (pair op p).PartialState

  abbrev pub ChainStep : Type 0
  ChainStep = Run (Step S A ChainState)

  -- `child_state.B.state`.
  abbrev pub chain_state : (pair op p).PartialState → p.PartialState
  unfolding pair
  chain_state st = st.states.1.0.state

  abbrev pub set_chain_state : p.PartialState → (pair op p).PartialState → (pair op p).PartialState
  unfolding pair
  set_chain_state child st = record st {
    states = (st.states.0, (record st.states.1.0 { state = child }, st.states.1.1));
  }

  -- One round is in: `more` goes on with the loop.
  unfoldable pub chainl1_round :
      A
      → Commit (Unit {0})
      → S.Checkpoint
      → (A → Commit (Unit {0}) → S.Input → (pair op p).PartialState → ChainStep)
      → Step S ((A → A → A) × (A × Unit {0})) (pair op p).PartialState
      → ChainStep
  unfolding merge from reset_then
  chainl1_round l committed before more (commit_ok (f, (r, _)), input, st) =
      more (f l r) (merge committed (commit tt)) input st
  chainl1_round l committed before more (peek_ok (f, (r, _)), input, st) =
      more (f l r) (merge committed (peek tt)) input st
  chainl1_round l committed before more (commit_err e, input, st) =
      done (commit_err e, input, (some (l, committed), st))
  chainl1_round l committed before more (peek_err _, input, st) =
      reset_then S before input (λ e i. done (commit_err e, i, (none, st)))
        λ i. done (from (ok (l, committed)), i, (none, st))

  unfoldable pub chainl1_loop :
      ℕ → ParseMode → A → Commit (Unit {0}) → S.Input → (pair op p).PartialState → ChainStep
  unfolding chainl1_round parse_mode set_first
  chainl1_loop zero mode l committed input st = out_of_fuel
  chainl1_loop (suc fuel) mode l committed input st = do
    r ← parse_mode (pair op p) mode input st
    chainl1_round l committed (S.checkpoint input)
        (λ l' committed' input' st'. chainl1_loop fuel (set_first mode) l' committed' input' st') r

  unfoldable pub chainl1_first :
      ℕ → ParseMode → (pair op p).PartialState → Step S A p.PartialState → ChainStep
  unfolding chainl1_loop set_chain_state set_first
  chainl1_first fuel mode st (commit_ok x, input, child) =
      chainl1_loop fuel (set_first mode) x (commit tt) input (set_chain_state child st)
  chainl1_first fuel mode st (peek_ok x, input, child) =
      chainl1_loop fuel (set_first mode) x (peek tt) input (set_chain_state child st)
  chainl1_first fuel mode st (commit_err e, input, child) =
      done (commit_err e, input, (none, set_chain_state child st))
  chainl1_first fuel mode st (peek_err e, input, child) =
      done (peek_err e, input, (none, set_chain_state child st))

  -- The first item is parsed by `parse_partial`, in whichever mode `chainl1` is.
  unfoldable pub chainl1_step : ℕ → ParseMode → S.Input → ChainState → ChainStep
  unfolding chainl1_first chainl1_loop parse_mode chain_state
  chainl1_step fuel mode input (some (l, committed), st) =
      chainl1_loop fuel mode l committed input st
  chainl1_step fuel mode input (none, st) = do
    r ← parse_mode p resume_mode input (chain_state st)
    chainl1_first fuel mode st r

  unfoldable pub chainl1 : ℕ → Parser S A
  unfolding chainl1_step resumable
  chainl1 fuel =
      resumable S (none, (pair op p).default) (chainl1_step fuel)
        (record {
          add_error = p.reporter.add_error;
          add_committed_expected_error = λ e. e;
          parser_count = 1;
        })

  -- `ctry!` of an item, with the commitment that its result has.
  item_then :
      (A → Commit (Unit {0}) → S.Input → Run (Outcome S A)) → Outcome S A → Run (Outcome S A)
  item_then k (commit_ok x, input) = k x (commit tt) input
  item_then k (peek_ok x, input) = k x (peek tt) input
  item_then k (commit_err e, input) = done (commit_err e, input)
  item_then k (peek_err e, input) = done (peek_err e, input)

  -- The end of the loop: `Ok((l, committed)).into()` once the input is reset.
  unfoldable pub chain_end : A → Commit (Unit {0}) → S.Checkpoint → S.Input → Run (Outcome S A)
  unfolding reset_then from
  chain_end l committed before input =
      reset_then S before input (λ e i. done (commit_err e, i))
        λ i. done (from (ok (l, committed)), i)

  -- The right operand is in.
  unfoldable pub chainr1_right :
      A
      → Commit (Unit {0})
      → (A → A → A)
      → S.Checkpoint
      → (A → Commit (Unit {0}) → S.Input → Run (Outcome S A))
      → Outcome S A
      → Run (Outcome S A)
  unfolding chain_end merge
  chainr1_right l committed f before more (commit_ok r, input) =
      more (f l r) (merge committed (commit tt)) input
  chainr1_right l committed f before more (peek_ok r, input) =
      more (f l r) (merge committed (peek tt)) input
  chainr1_right l committed f before more (commit_err e, input) = done (commit_err e, input)
  chainr1_right l committed f before more (peek_err _, input) = chain_end l committed before input

  -- The operator is in: `right` parses what is to the right of it.
  unfoldable pub chainr1_op :
      A
      → Commit (Unit {0})
      → S.Checkpoint
      → ((A → A → A) → Commit (Unit {0}) → S.Input → Run (Outcome S A))
      → Outcome S (A → A → A)
      → Run (Outcome S A)
  unfolding chain_end merge
  chainr1_op l committed before right (commit_ok f, input) =
      right f (merge committed (commit tt)) input
  chainr1_op l committed before right (peek_ok f, input) = right f (merge committed (peek tt)) input
  chainr1_op l committed before right (commit_err e, input) = done (commit_err e, input)
  chainr1_op l committed before right (peek_err _, input) = chain_end l committed before input

  unfoldable pub chainr1_loop : ℕ → A → Commit (Unit {0}) → S.Input → Run (Outcome S A)
  unfolding chainr1_op chainr1_right item_then
  chainr1_loop zero l committed input = out_of_fuel
  chainr1_loop (suc fuel) l committed input = do
    o ← op.parse_lazy input
    chainr1_op l committed (S.checkpoint input)
        (λ f committed' input'. do
          x ← p.parse_lazy input'
          r ← item_then (chainr1_loop fuel) x
          chainr1_right l committed' f (S.checkpoint input') (chainr1_loop fuel) r)
        o

  unfoldable pub chainr1_lazy : ℕ → S.Input → Run (Outcome S A)
  unfolding chainr1_loop item_then
  chainr1_lazy fuel input = do x ← p.parse_lazy input; item_then (chainr1_loop fuel) x

  unfoldable pub chainr1 : ℕ → Parser S A
  unfolding leaf chainr1_lazy
  chainr1 fuel = leaf S (chainr1_lazy fuel) p.reporter.add_error
