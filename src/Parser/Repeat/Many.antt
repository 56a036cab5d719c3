-- ===== src/Parser/Repeat/Many.antt =====
-- src/parser/repeat.rs: `Many`, `Many1`, `SkipMany`, `SkipMany1`, `CountMinMax` and `Count`.
pub mod Ends
pub mod Slice
use combine.Prelude.{ℕ, Bool, true, false, not, ◌||◌, Run, done, ◌>>=◌, if◌then◌else◌}
use combine.Error.Types.{commit_ok, peek_ok, commit_err, peek_err}
use combine.Error.ParseResult.{is_ok}
use combine.Stream.Core.{Stream}
use combine.Parser.Core.{Parser, ParseMode, is_first, set_first, Step, parse_mode, resumable}
use combine.Parser.Repeat.Iter.{Collection, iter_from, drain, into_result_fast}

-- `parsed_one`, `committed_state`, `elements` and the child's state.
pub record Many1State (F P : Type 0) : Type 0 where
  pub parsed_one : Bool
  pub committed : Bool
  pub elements : F
  pub child : P

module _ {S : Stream} {A F : Type 0} (c : Collection A F) where
  many_step :
      ℕ
      → (p : Parser S A) → ParseMode
      → S.Input
      → F × p.PartialState
      → Run (Step S F (F × p.PartialState))
  unfolding drain into_result_fast
  many_step fuel p mode input (elements, st) = do
    (elements', it) ← drain c fuel p elements (iter_from false mode input st)
    let (r, elements'') = into_result_fast c.empty elements' it
    done (r, it.input, (elements'', it.partial_state))

  unfoldable pub many : ℕ → Parser S A → Parser S F
  unfolding resumable many_step
  many fuel p =
      resumable S (c.empty, p.default) (many_step fuel p)
        (record {
          add_error = p.reporter.add_error;
          add_committed_expected_error = p.reporter.add_error;
          parser_count = p.reporter.parser_count;
        })

  many1_rest :
      ℕ
      → (p : Parser S A) → ParseMode
      → S.Input
      → Many1State F p.PartialState
      → Run (Step S F (Many1State F p.PartialState))
  unfolding drain into_result_fast is_ok
  many1_rest fuel p mode input st = do
    (elements, it) ← drain c fuel p st.elements (iter_from st.committed mode input st.child)
    let (r, elements') = into_result_fast c.empty elements it
    done (
      r,
      it.input,
      record {
        parsed_one = if is_ok r then false else st.parsed_one;
        committed = st.committed;
        elements = elements';
        child = it.partial_state;
      },
    )

  many1_first :
      ℕ
      → (p : Parser S A) → ParseMode
      → Many1State F p.PartialState
      → Step S A p.PartialState
      → Run (Step S F (Many1State F p.PartialState))
  unfolding many1_rest set_first
  many1_first fuel p mode st (commit_ok x, input, child) =
      many1_rest fuel p (set_first mode) input (record {
        parsed_one = true;
        committed = true;
        elements = c.extend st.elements x;
        child = child;
      })
  many1_first fuel p mode st (peek_ok x, input, child) =
      many1_rest fuel p (set_first mode) input (record {
        parsed_one = true;
        committed = false;
        elements = c.extend st.elements x;
        child = child;
      })
  many1_first fuel p mode st (commit_err e, input, child) = done (
    commit_err e,
    input,
    record {
      parsed_one = st.parsed_one;
      committed = st.committed;
      elements = st.elements;
      child = child;
    },
  )
  many1_first fuel p mode st (peek_err e, input, child) = done (
    peek_err e,
    input,
    record {
      parsed_one = st.parsed_one;
      committed = st.committed;
      elements = st.elements;
      child = child;
    },
  )

  many1_step :
      ℕ
      → (p : Parser S A) → ParseMode
      → S.Input
      → Many1State F p.PartialState
      → Run (Step S F (Many1State F p.PartialState))
  unfolding many1_first parse_mode is_first
  many1_step fuel p mode input st =
      let first : Run (Step S F (Many1State F p.PartialState)) = do
        r ← parse_mode p mode input st.child
        many1_first fuel p mode st r
      in if is_first mode || not st.parsed_one then first else many1_rest fuel p mode input st

  unfoldable pub many1 : ℕ → Parser S A → Parser S F
  unfolding resumable many1_step
  many1 fuel p =
      resumable S
        (record { parsed_one = false; committed = false; elements = c.empty; child = p.default })
        (many1_step fuel p)
        (record {
          add_error = p.reporter.add_error;
          add_committed_expected_error = p.reporter.add_error;
          parser_count = p.reporter.parser_count;
        })
