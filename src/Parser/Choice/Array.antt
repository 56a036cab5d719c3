-- ===== src/Parser/Choice/Array.antt =====
-- src/parser/choice.rs: `Choice` over a slice or an array of parsers, which share one type of state.
use combine.Prelude.{
  ℕ, ◌+◌, ◌-◌, not, ◌&&◌, List, [], ◌∷◌, Option, some, none, Run, done, panicked, ◌>>=◌, ◌==◌, leb,
  if◌then◌else◌, length, take, drop, get_elem?, map, String,
}
use combine.Error.Types.{Tracked, tracked, commit_ok, peek_ok, commit_err, peek_err}
use combine.Error.ParseResult.{is_ok}
use combine.Stream.Core.{Stream}
use combine.Parser.Core.{
  Parser, Reporter, ParseMode, resume_mode, is_first, Step, parse_mode, resumable, reset_then,
}
use combine.Parser.Choice.{choice_add_error}

-- A parser of the array: its `parse_mode`, over the state that the parsers share.
pub record Entry (S : Stream) (A P : Type 0) : Type 0 where
  pub parse_mode_entry : ParseMode → S.Input → P → Run (Step S A P)
  pub reporter : Reporter S

abbrev pub entry : {S : Stream} {A : Type 0} (p : Parser S A) → Entry S A p.PartialState
unfolding parse_mode
entry p = record { parse_mode_entry = parse_mode p; reporter = p.reporter }

module _ (S : Stream) where
  -- `self_[i].add_error(e)`.
  unfoldable pub add_at : List (Reporter S) → ℕ → Tracked S.Error → Run (Tracked S.Error)
  add_at rs i e = elim (get_elem? rs i) [ none ↦ panicked | some r ↦ done (r.add_error e) ]

  add_in_turn : List (Reporter S) → Tracked S.Error → Tracked S.Error
  add_in_turn [] e = e
  add_in_turn (r ∷ rs) e = add_in_turn rs (r.add_error (record e { offset = 1 }))

  -- `for p in &mut self_[from..to] { .. }`.
  unfoldable pub add_range : List (Reporter S) → ℕ → ℕ → Tracked S.Error → Run (Tracked S.Error)
  unfolding add_in_turn
  add_range rs from to e =
      if leb from to && leb to (length rs)
      then done (add_in_turn (take (to - from) (drop from rs)) e)
      else panicked

  -- The errors of the parsers before `i` that have not been added, and then those of `i`.
  unfoldable pub add_before : List (Reporter S) → ℕ → ℕ → Tracked S.Error → Run (Tracked S.Error)
  unfolding add_at add_range
  add_before rs last i e = do
    e₁ ← add_range rs last i e
    add_at rs i (record e₁ { offset = e.offset })

  -- Parser `i` fails after the ones before it: `prev_err` and `last_parser_having_non_1_offset`.
  unfoldable pub merge_prev :
      List (Reporter S)
      → ℕ
      → Option (Tracked S.Error)
      → ℕ
      → Tracked S.Error
      → Run (Option (Tracked S.Error) × ℕ)
  unfolding add_before
  merge_prev rs i none last e = done (some e, last)
  merge_prev rs i (some prev) last e =
      let merged = λ (p : Tracked S.Error).
        some (record { error = S.parse_error.merge p.error e.error; offset = e.offset }) in
      let added : Run (Option (Tracked S.Error) × ℕ) = do
        p ← add_before rs last (i - 1) prev
        done (merged p, i)
      in if prev.offset == 1 then done (merged prev, last) else added

  -- All have failed; `choice_is_empty` is the error's text.
  unfoldable pub array_failed :
      String → List (Reporter S) → Option (Tracked S.Error) → ℕ → S.Input → Run (Tracked S.Error)
  unfolding add_before
  array_failed choice_is_empty rs none last input = done (
      tracked (
        S.parse_error.from_error (S.position input)
          (S.parse_error.stream_error.message_static_message choice_is_empty)))
  array_failed choice_is_empty rs (some prev) last input =
      let added : Run (Tracked S.Error) = do
        p ← add_before rs last (length rs - 1) prev
        done (record p { offset = 0 })
      in if prev.offset == 1 then done prev else added

module _ {S : Stream} {A P : Type 0} (choice_is_empty : String) where
  -- The result of parser `i`; `others` goes on with the parsers behind it.
  unfoldable pub entry_result :
      List (Reporter S)
      → ℕ
      → ℕ
      → Option (Tracked S.Error)
      → ℕ
      → (Option (Tracked S.Error) → ℕ → S.Input → P → Run (Step S A (ℕ × P)))
      → Step S A P
      → Run (Step S A (ℕ × P))
  unfolding merge_prev
  entry_result rs index i prev last others (commit_err e, input, st) =
      done (commit_err e, input, (i + 1, st))
  entry_result rs index i prev last others (commit_ok x, input, st) =
      done (commit_ok x, input, (0, st))
  entry_result rs index i prev last others (peek_ok x, input, st) = done (peek_ok x, input, (0, st))
  entry_result rs index i prev last others (peek_err e, input, st) = do
    (prev', last') ← merge_prev S rs i prev last e
    others prev' last' input st

  -- The loop, from parser `i` on. `index` is the index that is kept.
  unfoldable pub array_loop :
      List (Reporter S)
      → S.Checkpoint
      → ParseMode
      → ℕ
      → List (Entry S A P)
      → ℕ
      → Option (Tracked S.Error)
      → ℕ
      → S.Input
      → P
      → Run (Step S A (ℕ × P))
  unfolding entry_result array_failed reset_then
  array_loop rs before mode index [] i prev last input st = do
    e ← array_failed S choice_is_empty rs prev last input
    done (peek_err e, input, (index, st))
  array_loop rs before mode index (p ∷ ps) i prev last input st =
      reset_then S before input (λ e i'. done (commit_err e, i', (index, st)))
        λ input'. do
          r ← p.parse_mode_entry mode input' st
          entry_result rs index i prev last
              (λ prev' last' input'' st'.
                array_loop rs before mode index ps (i + 1) prev' last' input'' st')
              r

  -- `slice_parse_mode`.
  unfoldable pub slice_parse_mode :
      List (Entry S A P) → ParseMode → S.Input → ℕ × P → Run (Step S A (ℕ × P))
  unfolding array_loop is_first is_ok
  slice_parse_mode ps mode input (index, st) =
      let loop =
        array_loop (map (λ p. p.reporter) ps) (S.checkpoint input) mode index ps 0 none 0 input
          st in
      let resumed : Run (Step S A (ℕ × P)) = elim (get_elem? ps (index - 1)) [
        | none ↦ panicked
        | some p ↦ do
          (r, input', st') ← p.parse_mode_entry resume_mode input st
          done (r, input', (if is_ok r then 0 else index, st'))
      ] in
      if not (is_first mode) && not (index == 0) then resumed else loop

  -- `choice` of an array, a slice or a `Vec`.
  unfoldable pub choice_array : P → List (Entry S A P) → Parser S A
  unfolding resumable slice_parse_mode choice_add_error
  choice_array start ps =
      resumable S (0, start) (slice_parse_mode ps)
        (record {
          add_error = choice_add_error S (map (λ p. p.reporter) ps);
          add_committed_expected_error = λ e. e;
          parser_count = 1;
        })
