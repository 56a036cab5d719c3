-- ===== src/Parser/Repeat/Many/Ends.antt =====
-- src/parser/repeat.rs: how `many` ends.
use combine.Prelude.{
  ℕ, zero, suc, ◌<◌, ◌≡◌, refl, ap, subst, Bool, true, false, Option, some, none, done, ◌>>=◌, ◌⊎◌,
  inl, inr, bind_assoc, Ensures, Ensures-bind, arith,
}
use combine.Error.Types.{ParseResult, commit_ok, peek_ok, commit_err, peek_err}
use combine.Error.ParseResult.{is_ok}
use combine.Stream.Core.{Stream}
use combine.Parser.Core.{Parser, Step, ParseMode, first_mode, parse_mode}
use combine.Parser.Core.Fresh.{parse_fresh}
use combine.Parser.Choice.First.{Decides}
use combine.Parser.Repeat.Iter.{
  Collection, Iter, IterState, running, stopped, failed, iter_from, next, next_result, drain,
  iter_result, into_result_fast,
}
use combine.Parser.Repeat.Many.{many, many_step}

iter_result-Decides :
    {F E : Type 0} (committed : Bool) (empty elements : F) (st : IterState E)
    → Decides (iter_result committed empty elements st).0
unfolding iter_result
iter_result-Decides true empty elements running = tt
iter_result-Decides false empty elements running = tt
iter_result-Decides true empty elements stopped = tt
iter_result-Decides false empty elements stopped = tt
iter_result-Decides committed empty elements (failed e) = tt

module _ {S : Stream} {A F : Type 0} (c : Collection A F) where
  -- `many` never fails without having committed: it gives its elements, or an error that is
  -- committed.
  pub many-Decides :
      (fuel : ℕ) (p : Parser S A) (input input' : S.Input) (r : ParseResult F S.Error)
      → parse_fresh (many c fuel p) input ≡ done (r, input')
      → Decides r
  unfolding many many_step parse_fresh into_result_fast
  many-Decides fuel p input input' r ran =
      let outcome = λ (x : ParseResult F S.Error × S.Input). Decides x.0 in
      subst (Ensures outcome) ran (
        rw bind_assoc (
          Ensures-bind outcome (drain c fuel p c.empty (iter_from false first_mode input p.default))
            _ λ x. iter_result-Decides x.1.committed c.empty x.0 x.1.state))

-- Each parse ends, and where it succeeds it leaves an input of a smaller measure.
abbrev pub Consumes : {S : Stream} {A : Type 0} → (S.Input → ℕ) → Parser S A → Type 0
Consumes {S} {A} measure p =
    (mode : ParseMode) (input : S.Input) (st : p.PartialState)
    → (r : ParseResult A S.Error) × (input' : S.Input) × (st' : p.PartialState) × (parse_mode p mode
          input st
        ≡ done (r, input', st'))
      × (is_ok r ≡ true → measure input' < measure input)

module _ {S : Stream} {A : Type 0} (measure : S.Input → ℕ) (p : Parser S A) where
  -- One round of the loop ends it, or gives an item and a smaller input.
  NextSpec : Iter S p.PartialState → Type 0
  NextSpec it =
      ((it' : Iter S p.PartialState) × (next p it ≡ done (none, it')))
      ⊎ ((v : A) × (it' : Iter S p.PartialState) × (next p it ≡ done (some v, it'))
          × (measure it'.input < measure it.input))

  after : (it : Iter S p.PartialState) → Step S A p.PartialState → Option A × Iter S p.PartialState
  unfolding next_result
  after it = next_result (S.checkpoint it.input) it

  next-ends_from :
      (it : Iter S p.PartialState) (r : ParseResult A S.Error) (input' : S.Input)
      → (st' : p.PartialState)
      → parse_mode p it.mode it.input it.partial_state ≡ done (r, input', st')
      → (is_ok r ≡ true → measure input' < measure it.input)
      → NextSpec it
  unfolding NextSpec next after is_ok
  next-ends_from it r input' st' stepped smaller = go r stepped smaller
    where
      run :
          (r : ParseResult A S.Error)
          → parse_mode p it.mode it.input it.partial_state ≡ done (r, input', st')
          → next p it ≡ done (after it (r, input', st'))
      run r stepped = ap (λ m. m >>= λ x. done (after it x)) stepped

      go :
          (r : ParseResult A S.Error)
          → parse_mode p it.mode it.input it.partial_state ≡ done (r, input', st')
          → (is_ok r ≡ true → measure input' < measure it.input)
          → NextSpec it
      go (commit_ok v) stepped smaller = inr (v, _, run (commit_ok v) stepped, smaller refl)
      go (peek_ok v) stepped smaller = inr (v, _, run (peek_ok v) stepped, smaller refl)
      go (commit_err e) stepped smaller = inl (_, run (commit_err e) stepped)
      go (peek_err e) stepped smaller = inl (_, run (peek_err e) stepped)

  next-ends : (it : Iter S p.PartialState) → Consumes measure p → NextSpec it
  next-ends it consumes =
      let (r, input', st', stepped, smaller) = consumes it.mode it.input it.partial_state in
      next-ends_from it r input' st' stepped smaller

  drain-ends :
      {F : Type 0} (c : Collection A F) (fuel : ℕ) (elements : F) (it : Iter S p.PartialState)
      → Consumes measure p
      → measure it.input < fuel
      → (x : F × Iter S p.PartialState) × (drain c fuel p elements it ≡ done x)
  unfolding drain NextSpec
  drain-ends c zero elements it consumes h = absurd (omega arith)
  drain-ends c (suc fuel) elements it consumes h = elim (next-ends it consumes) [
    | inl (it', stepped) ↦ ((elements, it'), rw stepped)
    | inr (v, it', stepped, smaller) ↦
        let (x, rest) = drain-ends c fuel (c.extend elements v) it' consumes (omega arith) in
        (x, rw stepped rest)
  ]

  -- Where each parse of `p` ends, and reads on where it succeeds, `many(p)` ends, with a value or a
  -- committed error: fuel above the measure of the input is enough.
  pub many-ends :
      {F : Type 0} (c : Collection A F) (fuel : ℕ) (input : S.Input)
      → Consumes measure p
      → measure input < fuel
      → (r : ParseResult F S.Error) × (input' : S.Input) × (parse_fresh (many c fuel p) input
          ≡ done (r, input'))
        × Decides r
  unfolding many many_step parse_fresh into_result_fast
  many-ends c fuel input consumes h =
      let it = iter_from {S = S} false first_mode input p.default in
      let ((elements, it'), drained) = drain-ends c fuel c.empty it consumes h in
      (
        (iter_result it'.committed c.empty elements it'.state).0,
        it'.input,
        rw drained,
        iter_result-Decides it'.committed c.empty elements it'.state,
      )
