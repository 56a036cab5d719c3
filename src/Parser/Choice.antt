-- ===== src/Parser/Choice.antt =====
-- src/parser/choice.rs: `Choice` over a tuple of parsers, `Or` and `Optional`. The macros unroll over
-- the parsers of the tuple; here they are recursions over a list of parsers.
pub mod First
pub mod Attempt
pub mod Dispatch
pub mod Array
mod Tests
use combine.Prelude.{
  ◌-◌, List, [], ◌∷◌, ◌++◌, Option, some, none, Run, done, panicked, ◌>>=◌, ◌⊎◌, inl, inr, ◌==◌,
  if◌then◌else◌, map,
}
use combine.Error.Types.{Tracked, tracked, ParseResult, commit_ok, peek_ok, commit_err, peek_err}
use combine.Error.ParseResult.{is_ok}
use combine.Stream.Core.{Stream}
use combine.Parser.Core.{
  Parser, Reporter, ParseMode, first_mode, is_first, Step, parse_mode, resumable, reset_then,
}

-- The state of the parser that committed, `$partial_state` without its variant `Peek`.
abbrev pub Chosen : {S : Stream} {A : Type 0} → List (Parser S A) → Type 0
Chosen [] = ⊥
Chosen (p ∷ ps) = p.PartialState ⊎ Chosen ps

-- A parser that failed, and its error.
abbrev pub Failure : Stream → Type 0
Failure S = Reporter S × Tracked S.Error

module _ (S : Stream) where
  -- `merge!`.
  unfoldable pub merge_errors : Failure S → List (Failure S) → S.Error
  merge_errors (_, e) [] = e.error
  merge_errors (_, e) (f ∷ fs) = S.parse_error.merge e.error (merge_errors f fs)

  -- The errors of a parser that passed some of its own parsers before it failed are added at once.
  unfoldable pub add_early : List (Failure S) → Tracked S.Error → Tracked S.Error
  add_early [] e = e
  add_early ((r, f) ∷ fs) e =
      let added = r.add_error (record e { offset = f.offset }) in
      add_early fs (if f.offset == 1 then e else record added { offset = 0 })

  -- The first rule of `do_choice!`: every parser failed. The macro has no rule for no parser.
  unfoldable pub all_failed : {A : Type 0} → List (Failure S) → Run (ParseResult A S.Error)
  unfolding merge_errors add_early
  all_failed [] = panicked
  all_failed (f ∷ fs) = done (peek_err (add_early (f ∷ fs) (tracked (merge_errors f fs))))

  add_each : List (Reporter S) → Tracked S.Error → Tracked S.Error
  add_each [] e = e
  add_each (r ∷ rs) e = add_each rs (r.add_error (record e { offset = 1 }))

  unfoldable pub add_error_choice : List (Reporter S) → Tracked S.Error → Tracked S.Error
  unfolding add_each
  add_error_choice rs e = if e.offset == 0 then e else add_each rs e

  unfoldable pub choice_add_error : List (Reporter S) → Tracked S.Error → Tracked S.Error
  unfolding add_error_choice
  choice_add_error rs e = let e' = add_error_choice rs e in record e' { offset = e.offset - 1 }

module _ {S : Stream} {A : Type 0} where
  -- The result of the head parser in `do_choice!`; `k` tries the others.
  choice_result :
      (p : Parser S A) (ps : List (Parser S A))
      → S.Input
      → (Tracked S.Error → S.Input → Run (Step S A (Option (Chosen ps))))
      → Step S A p.PartialState
      → Run (Step S A (Option (Chosen (p ∷ ps))))
  unfolding reset_then
  choice_result p ps before k (commit_ok x, input, st) = done (commit_ok x, input, none)
  choice_result p ps before k (peek_ok x, input, st) = done (peek_ok x, input, none)
  choice_result p ps before k (commit_err e, input, st) = done (
    commit_err e,
    input,
    if S.eq_position (S.position input) (S.position before) then none else some (inl st),
  )
  choice_result p ps before k (peek_err e, input, st) =
      reset_then S (S.checkpoint before) input (λ e' i. done (commit_err e', i, none))
        λ i. do
          (r, input', chosen) ← k e i
          done (r, input', elim chosen [ none ↦ none | some c ↦ some (inr c) ])

  -- `do_choice!`: `before` is the input at the start, `failures` the parsers that failed. The state
  -- is the new one where a parser commits itself, and `none` where it stays as it is.
  unfoldable pub do_choice :
      (ps : List (Parser S A))
      → S.Input
      → List (Failure S)
      → S.Input
      → Run (Step S A (Option (Chosen ps)))
  unfolding choice_result all_failed parse_mode
  do_choice [] before failures input = do r ← all_failed S failures; done (r, input, none)
  do_choice (p ∷ ps) before failures input = do
    r ← parse_mode p first_mode input p.default
    choice_result p ps before (λ e i. do_choice ps before (failures ++ (p.reporter, e) ∷ []) i) r

  -- The parser that committed goes on; its state stays unless it succeeds.
  unfoldable pub resume_chosen :
      (ps : List (Parser S A)) → ParseMode → S.Input → Chosen ps → Run (Step S A (Chosen ps))
  unfolding parse_mode
  resume_chosen [] mode input c = elim c [ ]
  resume_chosen (p ∷ ps) mode input (inl st) = do
    (r, input', st') ← parse_mode p mode input st
    done (r, input', inl st')
  resume_chosen (p ∷ ps) mode input (inr c) = do
    (r, input', c') ← resume_chosen ps mode input c
    done (r, input', inr c')

  choose :
      (ps : List (Parser S A)) → S.Input → Option (Chosen ps) → Run (Step S A (Option (Chosen ps)))
  unfolding do_choice
  choose ps input st = do
    (r, input', chosen) ← do_choice ps input [] input
    done (r, input', elim chosen [ none ↦ st | some c ↦ some c ])

  unfoldable pub choice_step :
      (ps : List (Parser S A))
      → ParseMode
      → S.Input
      → Option (Chosen ps)
      → Run (Step S A (Option (Chosen ps)))
  unfolding choose resume_chosen is_first is_ok
  choice_step ps mode input none = choose ps input none
  choice_step ps mode input (some c) =
      let resumed : Run (Step S A (Option (Chosen ps))) = do
        (r, input', c') ← resume_chosen ps mode input c
        done (r, input', if is_ok r then none else some c')
      in if is_first mode then choose ps input (some c) else resumed

  unfoldable pub choice : List (Parser S A) → Parser S A
  unfolding resumable choice_step choice_add_error
  choice ps = resumable S none (choice_step ps) (record {
    add_error = choice_add_error S (map (λ p. p.reporter) ps);
    add_committed_expected_error = λ e. e;
    parser_count = 1;
  })

  unfoldable pub or : Parser S A → Parser S A → Parser S A
  unfolding choice parse_mode
  or p q =
      let both = choice (p ∷ q ∷ []) in
      resumable S both.default (parse_mode both) (record {
        add_error = λ e. if e.offset == 0 then e else both.reporter.add_error e;
        add_committed_expected_error = λ e. e;
        parser_count = 1;
      })

optional_result : (S : Stream) {A P : Type 0} → S.Checkpoint → Step S A P → Step S (Option A) P
unfolding reset_then
optional_result S before (commit_ok x, input, st) = (commit_ok (some x), input, st)
optional_result S before (peek_ok x, input, st) = (peek_ok (some x), input, st)
optional_result S before (commit_err e, input, st) = (commit_err e, input, st)
optional_result S before (peek_err e, input, st) =
    reset_then S before input (λ e' i. (commit_err e', i, st)) (λ i. (peek_ok none, i, st))

module _ {S : Stream} {A : Type 0} where
  unfoldable pub optional : Parser S A → Parser S (Option A)
  unfolding resumable parse_mode optional_result
  optional p =
      resumable S p.default
        (λ mode input st. do
          r ← parse_mode p mode input st
          done (optional_result S (S.checkpoint input) r))
        (record {
          add_error = p.reporter.add_error;
          add_committed_expected_error = λ e. e;
          parser_count = p.reporter.parser_count;
        })
