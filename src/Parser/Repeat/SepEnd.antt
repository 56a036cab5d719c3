-- ===== src/Parser/Repeat/SepEnd.antt =====
-- src/parser/repeat.rs: `SepEndBy1` and `SepEndBy`.
use combine.Prelude.{
  ℕ, zero, suc, false, Option, some, none, if◌then◌else◌, Run, done, out_of_fuel, ◌>>=◌,
}
use combine.Error.Types.{Commit, commit, peek, commit_ok, peek_ok, commit_err, peek_err}
use combine.Error.Commit.{combine_commit}
use combine.Error.ParseResult.{is_ok}
use combine.Stream.Core.{Stream}
use combine.Parser.Core.{Parser, ParseMode, Step, parse_mode, resumable}
use combine.Parser.Choice.{or, optional}
use combine.Parser.Sequence.Build.{with}
use combine.Parser.Repeat.Iter.{Collection, Iter, iter_from, next, into_result_fast}
use combine.Parser.Repeat.SepBy.{SepBy1State, nothing}

module _ {S : Stream} {A F : Type 0} (c : Collection A F) where
  -- `elements.extend(iter.by_ref().scan((), |_, x| x))`: it ends at the first `None` that the parser
  -- gives, as it does at the end of the iterator.
  unfoldable pub drain_scan :
      ℕ → (p : Parser S (Option A)) → F → Iter S p.PartialState → Run (F × Iter S p.PartialState)
  unfolding next
  drain_scan zero p elements it = out_of_fuel
  drain_scan (suc fuel) p elements it = do
    (item, it') ← next p it
    elim item [
      | none ↦ done (elements, it')
      | some x ↦ elim x [
        | none ↦ done (elements, it')
        | some v ↦ drain_scan fuel p (c.extend elements v) it'
      ]
    ]

module _ {S : Stream} {A B F : Type 0} (c : Collection A F) (fuel : ℕ) (p : Parser S A)
    (separator : Parser S B) where
  -- The separator, with the parser where it starts.
  abbrev pub tail : Parser S (Option A)
  tail = with separator (optional p)

  -- `child_state.B.state`.
  abbrev pub tail_state : tail.PartialState → p.PartialState
  unfolding with optional
  tail_state st = st.states.1.0.state

  abbrev pub set_tail_state : p.PartialState → tail.PartialState → tail.PartialState
  unfolding with optional
  set_tail_state child st = record st {
    states = (st.states.0, (record st.states.1.0 { state = child }, st.states.1.1));
  }

  abbrev pub SepEndStep : Type 0
  SepEndStep = Run (Step S F (SepBy1State F tail.PartialState))

  -- `parsed_one` is set to committed where the iterator committed.
  unfoldable pub sep_end_by1_rest :
      ParseMode → S.Input → SepBy1State F tail.PartialState → Commit (Unit {0}) → SepEndStep
  unfolding drain_scan into_result_fast is_ok combine_commit
  sep_end_by1_rest mode input st rest = do
    (elements, it) ← drain_scan c fuel tail st.elements (iter_from false mode input st.child)
    let parsed_one = if it.committed then some (commit tt) else st.parsed_one
    let (r, elements') = into_result_fast c.empty elements it
    done (
      combine_commit rest (λ _. r),
      it.input,
      record {
        parsed_one = if is_ok r then none else parsed_one;
        elements = elements';
        child = it.partial_state;
      },
    )

  -- The first item is in, and `parsed_one` is set.
  unfoldable pub sep_end_by1_first :
      ParseMode → SepBy1State F tail.PartialState → Step S A p.PartialState → SepEndStep
  unfolding sep_end_by1_rest set_tail_state
  sep_end_by1_first mode st (commit_ok x, input, child) =
      sep_end_by1_rest mode input
        (record {
          parsed_one = some (commit tt);
          elements = c.extend st.elements x;
          child = set_tail_state child st.child;
        })
        (commit tt)
  sep_end_by1_first mode st (peek_ok x, input, child) =
      sep_end_by1_rest mode input
        (record {
          parsed_one = some (peek tt);
          elements = c.extend st.elements x;
          child = set_tail_state child st.child;
        })
        (peek tt)
  sep_end_by1_first mode st (commit_err e, input, child) =
      done (commit_err e, input, record st { child = set_tail_state child st.child })
  sep_end_by1_first mode st (peek_err e, input, child) =
      done (peek_err e, input, record st { child = set_tail_state child st.child })

  unfoldable pub sep_end_by1_step :
      ParseMode → S.Input → SepBy1State F tail.PartialState → SepEndStep
  unfolding sep_end_by1_rest sep_end_by1_first parse_mode tail_state
  sep_end_by1_step mode input st = elim st.parsed_one [
    | some rest ↦ sep_end_by1_rest mode input st rest
    | none ↦ do r ← parse_mode p mode input (tail_state st.child); sep_end_by1_first mode st r
  ]

  unfoldable pub sep_end_by1 : Parser S F
  unfolding resumable sep_end_by1_step
  sep_end_by1 =
      resumable S (record { parsed_one = none; elements = c.empty; child = tail.default })
        sep_end_by1_step
        (record {
          add_error = p.reporter.add_error;
          add_committed_expected_error = λ e. e;
          parser_count = 1;
        })

  unfoldable pub sep_end_by : Parser S F
  unfolding resumable parse_mode sep_end_by1 or
  sep_end_by =
      let one_or_none = or sep_end_by1 (nothing c fuel p separator) in
      resumable S one_or_none.default (parse_mode one_or_none) (record {
        add_error = p.reporter.add_error;
        add_committed_expected_error = λ e. e;
        parser_count = 1;
      })
