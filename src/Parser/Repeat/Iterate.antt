-- ===== src/Parser/Repeat/Iterate.antt =====
-- src/parser/repeat.rs: `Iterate`. The iterator is the list of its items; the function that makes the
-- parser of an item is given the input too, and may change it.
use combine.Prelude.{
  Bool, true, false, List, [], ◌∷◌, Option, some, none, Run, done, ◌>>=◌, if◌then◌else◌,
}
use combine.Error.Types.{commit_ok, peek_ok, commit_err, peek_err}
use combine.Stream.Core.{Stream}
use combine.Parser.Core.{Parser, ParseMode, is_first, set_first, Step, resumable, reset_then}
use combine.Parser.Choice.Array.{Entry}
use combine.Parser.Repeat.Iter.{Collection, ok_value}
use combine.Parser.Repeat.Until.{silent_reporter}

-- The iterator with the item to be tried again, `committed`, the elements, and the parser's state.
pub record IterateState (J F Q : Type 0) : Type 0 where
  pub iter : Option (List J × Option J)
  pub committed : Bool
  pub elements : F
  pub next : Q

module _ {S : Stream} {J A F Q : Type 0} (c : Collection A F)
    (make : J → S.Input → Entry S A Q × S.Input) (iterable : List J) where
  abbrev pub IterateStep : Type 0
  IterateStep = Run (Step S F (IterateState J F Q))

  -- The parser of an item has failed: the item is kept.
  abbrev kept : J → List J → Bool → F → Q → IterateState J F Q
  kept item items committed elements st = record {
    iter = some (items, some item);
    committed = committed;
    elements = elements;
    next = st;
  }

  -- `consume(item)`; `more` goes on with the items behind it.
  unfoldable pub consumed :
      J
      → List J
      → Bool
      → F
      → S.Checkpoint
      → (Bool → F → S.Input → Q → IterateStep)
      → Step S A Q
      → IterateStep
  unfolding reset_then
  consumed item items committed elements before more (peek_ok v, input, st) =
      more committed (c.extend elements v) input st
  consumed item items committed elements before more (commit_ok v, input, st) =
      more true (c.extend elements v) input st
  consumed item items committed elements before more (peek_err e, input, st) =
      reset_then S before input
        (λ e' i. done (commit_err e', i, kept item items committed elements st))
        λ i. done (
          if committed then commit_err e.error else peek_err e,
          i,
          kept item items committed elements st,
        )
  consumed item items committed elements before more (commit_err e, input, st) =
      done (commit_err e, input, kept item items committed elements st)

  unfoldable pub iterate_loop : ParseMode → List J → Bool → F → S.Input → Q → IterateStep
  unfolding consumed set_first
  iterate_loop mode [] committed elements input st = done (
    ok_value committed elements,
    input,
    record { iter = none; committed = false; elements = c.empty; next = st },
  )
  iterate_loop mode (item ∷ items) committed elements input st = do
    let made = make item input
    r ← made.0.parse_mode_entry mode made.1 st
    consumed item items committed elements (S.checkpoint made.1)
        (λ committed' elements' input' st'.
          iterate_loop (set_first mode) items committed' elements' input' st')
        r

  -- The items that are left, the one to be tried again first.
  abbrev left : Option (List J × Option J) → List J
  left none = iterable
  left (some (items, none)) = items
  left (some (items, some item)) = item ∷ items

  unfoldable pub iterate_step : ParseMode → S.Input → IterateState J F Q → IterateStep
  unfolding iterate_loop is_first
  iterate_step mode input st =
      iterate_loop mode (if is_first mode then iterable else left st.iter) st.committed st.elements
        input st.next

  unfoldable pub iterate : Q → Parser S F
  unfolding iterate_step resumable
  iterate q =
      resumable S (record { iter = none; committed = false; elements = c.empty; next = q })
        iterate_step (silent_reporter S)
