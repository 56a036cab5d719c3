-- ===== src/Parser/Repeat/Iter.antt =====
-- src/parser/repeat.rs: `Iter`, which runs a parser again and again, the collections that it fills,
-- and the loop of `Extend::extend` over it. The loop has fuel: a parser that succeeds without
-- reading makes the program loop for ever.
pub mod Runs
use combine.Prelude.{
  ℕ, zero, suc, Bool, true, List, [], ◌∷◌, ◌++◌, Option, some, none, Result, ok, err, Run, done,
  out_of_fuel, ◌>>=◌, if◌then◌else◌,
}
use combine.Error.Types.{tracked, ParseResult, commit_ok, peek_ok, commit_err, peek_err}
use combine.Stream.Core.{Stream}
use combine.Parser.Core.{Parser, ParseMode, set_first, Step, parse_mode}

-- `F: Extend<A> + Default`.
pub record Collection (A F : Type 0) : Type 0 where
  pub empty : F
  pub extend : F → A → F

-- `Vec`.
abbrev pub vec : (A : Type 0) → Collection A (List A)
vec A = record { empty = []; extend = λ xs x. xs ++ x ∷ [] }

-- `Sink`.
abbrev pub sink : (A : Type 0) → Collection A (Unit {0})
sink A = record { empty = tt; extend = λ u _. u }

-- `State<E>`.
pub data IterState (E : Type 0) : Type 0 where
  running stopped : IterState E
  failed : E → IterState E

-- `Iter`, without its parser.
pub record Iter (S : Stream) (P : Type 0) : Type 0 where
  pub input : S.Input
  pub committed : Bool
  pub state : IterState S.Error
  pub partial_state : P
  pub mode : ParseMode

-- `Iter::new`, where `committed` is false, and the literal in `Many1`.
abbrev pub iter_from : {S : Stream} {P : Type 0} → Bool → ParseMode → S.Input → P → Iter S P
iter_from committed mode input st = record {
  input = input;
  committed = committed;
  state = running;
  partial_state = st;
  mode = mode;
}

-- `State::PeekErr` or `State::CommitErr`, as the reset went.
reset_state : {E : Type 0} → Result (Unit {0}) E → IterState E
reset_state (ok _) = stopped
reset_state (err e) = failed e

module _ {S : Stream} {A : Type 0} where
  -- The match in `Iter::next`. After a `PeekErr` the state is set by the outcome of the reset, and
  -- at once set to `State::PeekErr`.
  unfoldable pub next_result :
      {P : Type 0} → S.Checkpoint → Iter S P → Step S A P → Option A × Iter S P
  unfolding set_first reset_state
  next_result before it (peek_ok v, input, st) =
      (some v, record it { input = input; partial_state = st; mode = set_first it.mode })
  next_result before it (commit_ok v, input, st) = (
    some v,
    record it { input = input; committed = true; partial_state = st; mode = set_first it.mode },
  )
  next_result before it (peek_err e, input, st) =
      let it₁ = record it {
        input = (S.reset before input).1;
        partial_state = st;
        state = reset_state (S.reset before input).0;
      } in
      (none, record it₁ { state = stopped })
  next_result before it (commit_err e, input, st) =
      (none, record it { input = input; partial_state = st; state = failed e })

  unfoldable pub next :
      (p : Parser S A) → Iter S p.PartialState → Run (Option A × Iter S p.PartialState)
  unfolding next_result parse_mode
  next p it = do
    r ← parse_mode p it.mode it.input it.partial_state
    done (next_result (S.checkpoint it.input) it r)

  -- `elements.extend(iter.by_ref())`.
  unfoldable pub drain :
      {F : Type 0}
      → Collection A F
      → ℕ
      → (p : Parser S A) → F
      → Iter S p.PartialState
      → Run (F × Iter S p.PartialState)
  unfolding next
  drain c zero p elements it = out_of_fuel
  drain c (suc fuel) p elements it = do
    (item, it') ← next p it
    elim item [ none ↦ done (elements, it') | some v ↦ drain c fuel p (c.extend elements v) it' ]

-- A value, committed or not.
abbrev pub ok_value : {A E : Type 0} → Bool → A → ParseResult A E
ok_value committed v = if committed then commit_ok v else peek_ok v

-- The match in `into_result_fast`: the value is taken out of the state where the result is `Ok`.
unfoldable pub iter_result : {F E : Type 0} → Bool → F → F → IterState E → ParseResult F E × F
iter_result committed empty elements running = (ok_value committed elements, empty)
iter_result committed empty elements stopped = (ok_value committed elements, empty)
iter_result committed empty elements (failed e) = (commit_err e, elements)

module _ {S : Stream} where
  unfoldable pub into_result_fast : {F P : Type 0} → F → F → Iter S P → ParseResult F S.Error × F
  unfolding iter_result
  into_result_fast empty elements it = iter_result it.committed empty elements it.state

module _ (S : Stream) {A : Type 0} where
  -- An error at the input's position, committed or not.
  abbrev stop_error : S.StreamErrorFor → Bool → S.Input → ParseResult A S.Error
  stop_error e committed input =
      let e' = S.parse_error.from_error (S.position input) e in
      if committed then commit_err e' else peek_err (tracked e')

  fail_result : S.StreamErrorFor → Bool → S.Input → IterState S.Error → ParseResult A S.Error
  fail_result e committed input running = stop_error e committed input
  fail_result e committed input stopped = stop_error e committed input
  fail_result e committed input (failed e') = commit_err (S.parse_error.add e e')

  unfoldable pub fail : {P : Type 0} → S.StreamErrorFor → Iter S P → ParseResult A S.Error
  unfolding fail_result
  fail e it = fail_result e it.committed it.input it.state
