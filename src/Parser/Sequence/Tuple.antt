-- ===== src/Parser/Sequence/Tuple.antt =====
-- src/parser/sequence.rs, `tuple_parser!`: the parser of a tuple `(A, B, ..)`. The macro's body is
-- unrolled over the parsers; here it is a recursion over them, for any number of parsers.
use combine.Prelude.{
  ℕ, ◌+◌, Bool, true, false, ◌||◌, List, [], ◌∷◌, Option, some, none, ok, err, Run, done, panicked,
  ◌>>=◌, ◌==◌, if◌then◌else◌,
}
use combine.Error.Types.{
  ErrorOffset, Tracked, tracked, ParseResult, commit_ok, peek_ok, commit_err, peek_err,
}
use combine.Stream.Core.{Stream}
use combine.Parser.Core.{
  Parser, Reporter, ParseMode, is_first, set_first, Step, Outcome, parse_mode, resumable,
}
use combine.Parser.Sequence.Errors.{saturating_add, add_errors, tuple_reporter}

-- `SequenceState<T, U>`.
pub record SequenceState (T U : Type 0) : Type 0 where
  pub value : Option T
  pub state : U

abbrev pub fresh : {T U : Type 0} → U → SequenceState T U
fresh st = record { value = none; state = st }

pub data Parsers (S : Stream) : Type 1 where
  nil : Parsers S
  cons : {A : Type 0} → Parser S A → Parsers S → Parsers S

-- The outputs of the parsers, as a tuple that ends in `tt`, and the state of each.
abbrev pub Outputs : {S : Stream} → Parsers S → Type 0
Outputs nil = Unit {0}
Outputs (cons {A} p ps) = A × Outputs ps

abbrev pub States : {S : Stream} → Parsers S → Type 0
States nil = Unit {0}
States (cons {A} p ps) = SequenceState A p.PartialState × States ps

abbrev pub start : {S : Stream} (ps : Parsers S) → States ps
start nil = tt
start (cons p ps) = (fresh p.default, start ps)

abbrev pub reporters : {S : Stream} → Parsers S → List (Reporter S)
reporters nil = []
reporters (cons p ps) = p.reporter ∷ reporters ps

unfoldable pub is_none : {T : Type 0} → Option T → Bool
is_none none = true
is_none (some _) = false

-- The locals of the macro's body, and the `offset` field of the state.
pub record Progress : Type 0 where
  pub mode : ParseMode
  pub first_empty_parser : ℕ
  pub current_parser : ℕ
  pub offset : ErrorOffset

-- Whether the parsers went on to the end, or one of them made the tuple return an error.
pub data Walk (Out E : Type 0) : Type 0 where
  reached_end : Progress → Walk Out E
  failed : ParseResult Out E → ErrorOffset → Walk Out E

-- The progress after a parser has given a value.
abbrev pub passed : Bool → ErrorOffset → Progress → Progress
passed committed offset pr = record {
  mode = set_first pr.mode;
  first_empty_parser = if committed then pr.current_parser + 1 else pr.first_empty_parser;
  current_parser = pr.current_parser;
  offset = offset;
}

-- The early return where a parser after the first fails with nothing committed.
unfoldable pub fail_peek :
    (S : Stream) {Out : Type 0}
    → List (Reporter S)
    → S.Checkpoint
    → Progress
    → Tracked S.Error
    → S.Input
    → Outcome S Out
unfolding add_errors
fail_peek S rs before pr e input = elim (S.reset before input).0 [
  | ok _ ↦ add_errors S rs e pr.first_empty_parser pr.offset (S.reset before input).1
  | err e' ↦ (
    if pr.first_empty_parser == 0 then peek_err (tracked e') else commit_err e',
    (S.reset before input).1,
  )
]

abbrev pub Walking : {S : Stream} → Type 0 → Parsers S → Type 0
Walking {S} Out ps = Walk Out S.Error × S.Input × States ps

module _ {S : Stream} (Out : Type 0) (rs : List (Reporter S)) where
  -- One parser's result is in; `k` runs the parsers after it.
  unfoldable pub walk_result :
      {A : Type 0} (p : Parser S A) (ps : Parsers S)
      → S.Checkpoint
      → Progress
      → SequenceState A p.PartialState
      → States ps
      → (Progress → S.Input → Run (Walking Out ps))
      → Step S A p.PartialState
      → Run (Walking Out (cons p ps))
  unfolding fail_peek
  walk_result p ps before pr s sts k (commit_ok x, input, st) = do
    let offset = saturating_add pr.offset p.reporter.parser_count
    (w, input', sts') ← k (passed true offset pr) input
    done (w, input', (record { value = some x; state = st }, sts'))
  walk_result p ps before pr s sts k (peek_ok x, input, st) = do
    let offset = saturating_add pr.offset p.reporter.parser_count
    (w, input', sts') ← k (passed false offset pr) input
    done (w, input', (record { value = some x; state = st }, sts'))
  walk_result p ps before pr s sts k (peek_err e, input, st) =
      let out = fail_peek S rs before pr e input in
      done (failed out.0 pr.offset, out.1, (record { value = s.value; state = st }, sts))
  walk_result p ps before pr s sts k (commit_err e, input, st) =
      done (failed (commit_err e) pr.offset, input, (record { value = s.value; state = st }, sts))

  -- The repeated part of the macro's body.
  unfoldable pub walk : (ps : Parsers S) → Progress → S.Input → States ps → Run (Walking Out ps)
  unfolding walk_result is_first set_first parse_mode is_none
  walk nil pr input sts = done (reached_end pr, input, tt)
  walk (cons p ps) pr input (s, sts) =
      let next = record pr { current_parser = pr.current_parser + 1 } in
      let skip : Run (Walking Out (cons p ps)) = do
        (w, input', sts') ← walk ps pr input sts
        done (w, input', (s, sts'))
      in let run : Run (Walking Out (cons p ps)) = do
        r ← parse_mode p pr.mode input s.state
        walk_result p ps (S.checkpoint input) next s sts (λ pr' input'. walk ps pr' input' sts) r
        in if is_first pr.mode || is_none s.value then run else skip

-- `unwrap_value` of every state: the values are taken. Reaching a missing one is undefined
-- behaviour in the program.
unfoldable pub unwrap_all :
    {S : Stream} (ps : Parsers S) → States ps → Option (Outputs ps) × States ps
unwrap_all nil sts = (some tt, tt)
unwrap_all (cons p ps) (s, sts) =
    let rest = unwrap_all ps sts in
    (
      elim s.value [ none ↦ none | some x ↦ elim rest.0 [ none ↦ none | some xs ↦ some (x, xs) ] ],
      (record { value = none; state = s.state }, rest.1),
    )

-- `$partial_state`: the offset and the states.
pub record TupleState (States : Type 0) : Type 0 where
  pub offset : ErrorOffset
  pub states : States

module _ {S : Stream} where
  tuple_end :
      (ps : Parsers S)
      → Progress
      → S.Input
      → States ps
      → Run (Step S (Outputs ps) (TupleState (States ps)))
  unfolding unwrap_all
  tuple_end ps pr input sts =
      let (values, sts') = unwrap_all ps sts in
      elim values [
        | none ↦ panicked
        | some v ↦ done (
          if pr.first_empty_parser == 0 then peek_ok v else commit_ok v,
          input,
          record { offset = pr.offset; states = sts' },
        )
      ]

  unfoldable pub tuple_walked :
      (ps : Parsers S)
      → Walk (Outputs ps) S.Error × S.Input × States ps
      → Run (Step S (Outputs ps) (TupleState (States ps)))
  unfolding tuple_end
  tuple_walked ps (reached_end pr, input, sts) = tuple_end ps pr input sts
  tuple_walked ps (failed e offset, input, sts) =
      done (e, input, record { offset = offset; states = sts })

  -- The first parser's result is in: its errors are returned as they are.
  unfoldable pub tuple_head :
      {A : Type 0} (p : Parser S A) (ps : Parsers S)
      → ParseMode
      → TupleState (States (cons p ps))
      → Step S A p.PartialState
      → Run (Step S (Outputs (cons p ps)) (TupleState (States (cons p ps))))
  unfolding walk tuple_walked
  tuple_head p ps mode st (commit_ok x, input, s) = do
    let offset = saturating_add p.reporter.parser_count 1
    let pr : Progress = record {
      mode = set_first mode;
      first_empty_parser = 1;
      current_parser = 0;
      offset = offset;
    }
    (w, input', sts) ← walk (Outputs (cons p ps)) (reporters (cons p ps)) ps pr input st.states.1
    tuple_walked (cons p ps) (w, input', (record { value = some x; state = s }, sts))
  tuple_head p ps mode st (peek_ok x, input, s) = do
    let offset = saturating_add p.reporter.parser_count 1
    let pr : Progress = record {
      mode = set_first mode;
      first_empty_parser = 0;
      current_parser = 0;
      offset = offset;
    }
    (w, input', sts) ← walk (Outputs (cons p ps)) (reporters (cons p ps)) ps pr input st.states.1
    tuple_walked (cons p ps) (w, input', (record { value = some x; state = s }, sts))
  tuple_head p ps mode st (peek_err e, input, s) = done (
    peek_err e,
    input,
    record st { states = (record { value = st.states.0.value; state = s }, st.states.1) },
  )
  tuple_head p ps mode st (commit_err e, input, s) = done (
    commit_err e,
    input,
    record st { states = (record { value = st.states.0.value; state = s }, st.states.1) },
  )

  unfoldable pub tuple_step :
      {A : Type 0} (p : Parser S A) (ps : Parsers S)
      → ParseMode
      → S.Input
      → TupleState (States (cons p ps))
      → Run (Step S (Outputs (cons p ps)) (TupleState (States (cons p ps))))
  unfolding tuple_head is_first is_none parse_mode
  tuple_step p ps mode input st =
      let run : Run (Step S (Outputs (cons p ps)) (TupleState (States (cons p ps)))) = do
        r ← parse_mode p mode input st.states.0.state
        tuple_head p ps mode st r
      in let skip : Run (Step S (Outputs (cons p ps)) (TupleState (States (cons p ps)))) = do
        let pr : Progress = record {
          mode = mode;
          first_empty_parser = 0;
          current_parser = 0;
          offset = st.offset;
        }
        (w, input', sts) ←
            walk (Outputs (cons p ps)) (reporters (cons p ps)) ps pr input st.states.1
        tuple_walked (cons p ps) (w, input', (st.states.0, sts))
        in if is_first mode || is_none st.states.0.value then run else skip

  unfoldable pub tuple :
      {A : Type 0} (p : Parser S A) (ps : Parsers S) → Parser S (Outputs (cons p ps))
  unfolding tuple_step resumable tuple_reporter
  tuple p ps =
      resumable S (record { offset = 0; states = start (cons p ps) }) (tuple_step p ps)
        (tuple_reporter p.reporter (reporters ps))
