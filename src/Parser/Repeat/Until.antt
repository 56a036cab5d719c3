-- ===== src/Parser/Repeat/Until.antt =====
-- src/parser/repeat.rs: `TakeUntil`, `SkipUntil`, `RepeatUntil` and `SkipRepeatUntil`. The loops have
-- fuel.
pub mod Reads
use combine.Prelude.{
  if◌then◌else◌, ℕ, zero, suc, Bool, true, false, ok, Run, done, out_of_fuel, ◌>>=◌,
}
use combine.Error.Types.{
  Commit, commit, peek, Tracked, ParseResult, commit_ok, peek_ok, commit_err, peek_err,
}
use combine.Error.Commit.{merge}
use combine.Error.ParseResult.{from}
use combine.Stream.Core.{Stream}
use combine.Stream.Ops.{uncons}
use combine.Parser.Core.{
  Parser, ParseMode, set_first, Step, Outcome, Reporter, parse_mode, resumable, silent_error,
  reset_then,
}
use combine.Parser.Token.{expect}
use combine.Parser.Tokens.{value}
use combine.Parser.Sequence.Build.{with}
use combine.Parser.Repeat.Iter.{Collection, sink}

-- The methods of a parser that the trait fills in.
abbrev pub silent_reporter : (S : Stream) → Reporter S
silent_reporter S = record {
  add_error = silent_error;
  add_committed_expected_error = silent_error;
  parser_count = 1;
}

module _ (S : Stream) {F : Type 0} where
  -- The end has come: the input goes back to before it, and the elements are taken.
  unfoldable pub until_end :
      {P : Type 0} → F → S.Checkpoint → F → P → P → Commit (Unit {0}) → S.Input → Run (Step S F P)
  unfolding reset_then from
  until_end empty before elements kept fresh committed input =
      reset_then S before input (λ e i. done (commit_err e, i, kept))
        λ i. done (from (ok (elements, committed)), i, fresh)

  -- The end has failed after it committed: the input goes back all the same.
  unfoldable pub until_fail : {P : Type 0} → S.Checkpoint → S.Error → P → S.Input → Run (Step S F P)
  unfolding reset_then
  until_fail before e kept input =
      reset_then S before input (λ e' i. done (commit_err e', i, kept))
        λ i. done (commit_err e, i, kept)

module _ {S : Stream} {B F : Type 0} (c : Collection S.Token F) (end_parser : Parser S B) where
  abbrev pub UntilStep : Type 0
  UntilStep = Run (Step S F (F × end_parser.PartialState))

  -- `ctry!(uncons(input))`: an item goes to the elements, an error is returned as it is.
  unfoldable pub until_token :
      F → end_parser.PartialState → (F → S.Input → UntilStep) → Outcome S S.Token → UntilStep
  until_token elements st more (commit_ok x, input) = more (c.extend elements x) input
  until_token elements st more (peek_ok x, input) = more (c.extend elements x) input
  until_token elements st more (commit_err e, input) = done (commit_err e, input, (elements, st))
  until_token elements st more (peek_err e, input) = done (peek_err e, input, (elements, st))

  unfoldable pub until_round :
      F
      → Commit (Unit {0})
      → S.Checkpoint
      → (end_parser.PartialState → F → S.Input → UntilStep)
      → Step S B end_parser.PartialState
      → UntilStep
  unfolding until_end until_fail until_token merge reset_then uncons
  until_round elements committed before more (commit_ok _, input, st) =
      until_end S c.empty before elements (elements, st) (c.empty, st) (merge committed (commit tt))
        input
  until_round elements committed before more (peek_ok _, input, st) =
      until_end S c.empty before elements (elements, st) (c.empty, st) (merge committed (peek tt))
        input
  until_round elements committed before more (commit_err e, input, st) =
      until_fail S before e (elements, st) input
  until_round elements committed before more (peek_err _, input, st) =
      reset_then S before input (λ e i. done (commit_err e, i, (elements, st)))
        λ i. until_token elements st (more st) (uncons S i)

  unfoldable pub until_loop :
      ℕ → ParseMode → Commit (Unit {0}) → S.Input → F → end_parser.PartialState → UntilStep
  unfolding until_round parse_mode
  until_loop zero mode committed input elements st = out_of_fuel
  until_loop (suc fuel) mode committed input elements st = do
    r ← parse_mode end_parser mode input st
    until_round elements committed (S.checkpoint input)
        (λ st' elements' input'. until_loop fuel mode (commit tt) input' elements' st') r

  unfoldable pub take_until : ℕ → Parser S F
  unfolding until_loop resumable
  take_until fuel =
      resumable S (c.empty, end_parser.default)
        (λ mode input st. until_loop fuel mode (peek tt) input st.0 st.1) (silent_reporter S)

module _ {S : Stream} {B : Type 0} where
  unfoldable pub skip_until : ℕ → Parser S B → Parser S (Unit {0})
  unfolding take_until with value
  skip_until fuel end_parser = with (take_until (sink S.Token) end_parser fuel) (value S tt)

-- The elements, `is_parse`, and the states of the parser and of the end.
pub record RepeatUntilState (F P Q : Type 0) : Type 0 where
  pub elements : F
  pub is_parse : Bool
  pub parse_state : P
  pub end_state : Q

module _ {S : Stream} {A B F : Type 0} (c : Collection A F) (p : Parser S A)
    (end_parser : Parser S B) where
  abbrev pub RepeatState : Type 0
  RepeatState = RepeatUntilState F p.PartialState end_parser.PartialState

  abbrev pub RepeatStep : Type 0
  RepeatStep = Run (Step S F RepeatState)

  -- `ctry!(self.parser.parse_mode(..))`.
  unfoldable pub repeat_item :
      Commit (Unit {0})
      → RepeatState
      → (Commit (Unit {0}) → S.Input → RepeatState → RepeatStep)
      → Step S A p.PartialState
      → RepeatStep
  unfolding merge
  repeat_item committed st more (commit_ok x, input, child) =
      more (merge committed (commit tt)) input
        (record st { elements = c.extend st.elements x; is_parse = false; parse_state = child })
  repeat_item committed st more (peek_ok x, input, child) =
      more (merge committed (peek tt)) input
        (record st { elements = c.extend st.elements x; is_parse = false; parse_state = child })
  repeat_item committed st more (commit_err e, input, child) =
      done (commit_err e, input, record st { parse_state = child })
  repeat_item committed st more (peek_err e, input, child) =
      done (peek_err e, input, record st { parse_state = child })

  -- The end is tried; `more` goes on with `is_parse` set.
  unfoldable pub repeat_end :
      Commit (Unit {0})
      → S.Checkpoint
      → RepeatState
      → (S.Input → RepeatState → RepeatStep)
      → Step S B end_parser.PartialState
      → RepeatStep
  unfolding until_end until_fail merge reset_then
  repeat_end committed before st more (commit_ok _, input, q) =
      until_end S c.empty before st.elements (record st { end_state = q })
        (record st { elements = c.empty; end_state = q }) (merge committed (commit tt)) input
  repeat_end committed before st more (peek_ok _, input, q) =
      until_end S c.empty before st.elements (record st { end_state = q })
        (record st { elements = c.empty; end_state = q }) (merge committed (peek tt)) input
  repeat_end committed before st more (commit_err e, input, q) =
      until_fail S before e (record st { end_state = q }) input
  repeat_end committed before st more (peek_err _, input, q) =
      reset_then S before input (λ e i. done (commit_err e, i, record st { end_state = q }))
        λ i. more i (record st { is_parse = true; end_state = q })

  unfoldable pub repeat_loop :
      ℕ → ParseMode → Commit (Unit {0}) → S.Input → RepeatState → RepeatStep
  unfolding repeat_item repeat_end parse_mode set_first
  repeat_loop zero mode committed input st = out_of_fuel
  repeat_loop (suc fuel) mode committed input st =
      let item : RepeatStep = do
        r ← parse_mode p mode input st.parse_state
        repeat_item committed st
            (λ committed' input' st'. repeat_loop fuel mode committed' input' st') r
      in let end_of : RepeatStep = do
        r ← parse_mode end_parser mode input st.end_state
        repeat_end committed (S.checkpoint input) st
            (λ input' st'. repeat_loop fuel (set_first mode) committed input' st') r
        in if st.is_parse then item else end_of

  unfoldable pub repeat_until : ℕ → Parser S F
  unfolding repeat_loop resumable
  repeat_until fuel =
      resumable S
        (record {
          elements = c.empty;
          is_parse = false;
          parse_state = p.default;
          end_state = end_parser.default;
        })
        (λ mode input st. repeat_loop fuel mode (peek tt) input st) (silent_reporter S)

module _ {S : Stream} {A B : Type 0} where
  unfoldable pub repeat_skip_until : ℕ → Parser S A → Parser S B → Parser S (Unit {0})
  unfolding repeat_until with value
  repeat_skip_until fuel p end_parser = with (repeat_until (sink A) p end_parser fuel) (value S tt)
