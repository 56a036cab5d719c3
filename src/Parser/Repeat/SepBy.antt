-- ===== src/Parser/Repeat/SepBy.antt =====
-- src/parser/repeat.rs: `SepBy1` and `SepBy`.
pub mod Collects
pub mod Empty
pub mod Resume
use combine.Prelude.{ℕ, false, Option, some, none, ok, if◌then◌else◌, Run, done, ◌>>=◌}
use combine.Error.Types.{
  Commit, commit, peek, ParseResult, commit_ok, peek_ok, commit_err, peek_err, StdParseResult,
}
use combine.Error.Commit.{combine_commit}
use combine.Error.ParseResult.{is_ok, from}
use combine.Stream.Core.{Stream}
use combine.Parser.Core.{
  Parser, ParseMode, Step, Outcome, parse_mode, resumable, leaf, silent_error,
}
use combine.Parser.Function.{fn_parser}
use combine.Parser.Choice.{or}
use combine.Parser.Sequence.Build.{with}
use combine.Parser.Repeat.Iter.{Collection, Iter, iter_from, drain, into_result_fast}

-- `parsed_one`, `elements` and the state of the separator with the parser.
pub record SepBy1State (F P : Type 0) : Type 0 where
  pub parsed_one : Option (Commit (Unit {0}))
  pub elements : F
  pub child : P

module _ {S : Stream} {A B F : Type 0} (c : Collection A F) (fuel : ℕ) (p : Parser S A)
    (separator : Parser S B) where
  -- `child_state.B.state`.
  abbrev pub second : (with separator p).PartialState → p.PartialState
  unfolding with
  second st = st.states.1.0.state

  abbrev pub set_second :
      p.PartialState → (with separator p).PartialState → (with separator p).PartialState
  unfolding with
  set_second child st = record st {
    states = (st.states.0, (record st.states.1.0 { state = child }, st.states.1.1));
  }

  abbrev pub SepBy1Step : Type 0
  SepBy1Step = Run (Step S F (SepBy1State F (with separator p).PartialState))

  unfoldable pub sep_by1_rest :
      ParseMode
      → S.Input
      → SepBy1State F (with separator p).PartialState
      → Commit (Unit {0})
      → SepBy1Step
  unfolding drain into_result_fast is_ok combine_commit
  sep_by1_rest mode input st rest = do
    (elements, it) ←
        drain c fuel (with separator p) st.elements (iter_from false mode input st.child)
    let (r, elements') = into_result_fast c.empty elements it
    done (
      combine_commit rest (λ _. r),
      it.input,
      record {
        parsed_one = if is_ok r then none else st.parsed_one;
        elements = elements';
        child = it.partial_state;
      },
    )

  -- The first item is in. `parsed_one` is not set.
  unfoldable pub sep_by1_first :
      ParseMode
      → SepBy1State F (with separator p).PartialState
      → Step S A p.PartialState
      → SepBy1Step
  unfolding sep_by1_rest set_second
  sep_by1_first mode st (commit_ok x, input, child) =
      sep_by1_rest mode input
        (record st { elements = c.extend st.elements x; child = set_second child st.child })
        (commit tt)
  sep_by1_first mode st (peek_ok x, input, child) =
      sep_by1_rest mode input
        (record st { elements = c.extend st.elements x; child = set_second child st.child })
        (peek tt)
  sep_by1_first mode st (commit_err e, input, child) =
      done (commit_err e, input, record st { child = set_second child st.child })
  sep_by1_first mode st (peek_err e, input, child) =
      done (peek_err e, input, record st { child = set_second child st.child })

  unfoldable pub sep_by1_step :
      ParseMode → S.Input → SepBy1State F (with separator p).PartialState → SepBy1Step
  unfolding sep_by1_rest sep_by1_first parse_mode second
  sep_by1_step mode input st = elim st.parsed_one [
    | some rest ↦ sep_by1_rest mode input st rest
    | none ↦ do r ← parse_mode p mode input (second st.child); sep_by1_first mode st r
  ]

  unfoldable pub sep_by1 : Parser S F
  unfolding resumable sep_by1_step
  sep_by1 =
      resumable S
        (record { parsed_one = none; elements = c.empty; child = (with separator p).default })
        sep_by1_step
        (record {
          add_error = p.reporter.add_error;
          add_committed_expected_error = separator.reporter.add_error;
          parser_count = p.reporter.parser_count;
        })

  abbrev pub nothing : Parser S F
  unfolding fn_parser
  nothing = fn_parser S (λ input. (ok (c.empty, peek tt), input))

  unfoldable pub sep_by : Parser S F
  unfolding resumable parse_mode sep_by1 or nothing
  sep_by =
      let one_or_none = or sep_by1 nothing in
      resumable S one_or_none.default (parse_mode one_or_none) (record {
        add_error = p.reporter.add_error;
        add_committed_expected_error = separator.reporter.add_error;
        parser_count = p.reporter.parser_count;
      })
