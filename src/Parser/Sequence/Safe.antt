-- ===== src/Parser/Sequence/Safe.antt =====
-- src/parser/sequence.rs: `unwrap_value`, which is undefined behaviour on a missing value, is called
-- by `tuple_parser!` on values that are all there.
use combine.Prelude.{
  ◌≡◌, refl, Bool, true, false, ◌||◌, List, Option, some, none, Run, ◌>>=◌, if◌then◌else◌, Safe,
  Safe-bind,
}
use combine.Error.Types.{commit_ok, peek_ok, commit_err, peek_err}
use combine.Stream.Core.{Stream}
use combine.Parser.Core.{Parser, Reporter, ParseMode, Step, parse_mode, is_first}
use combine.Parser.Sequence.Tuple.{
  SequenceState, Parsers, nil, cons, Outputs, States, is_none, Progress, reached_end, failed,
  Walking, walk_result, walk, unwrap_all, TupleState, tuple_step, tuple_walked, tuple_head,
  reporters,
}

-- The parser does not panic.
abbrev pub NeverPanics : {S : Stream} {A : Type 0} → Parser S A → Type 0
NeverPanics {S} p =
    (mode : ParseMode) (input : S.Input) (st : p.PartialState)
    → Safe (λ _. Unit {0}) (parse_mode p mode input st)

abbrev pub AllNeverPanic : {S : Stream} → Parsers S → Type 0
AllNeverPanic nil = Unit
AllNeverPanic (cons p ps) = NeverPanics p × AllNeverPanic ps

if-Safe :
    {A : Type 0} (Good : A → Type 0) (b : Bool) (m n : Run A)
    → (b ≡ true → Safe Good m)
    → (b ≡ false → Safe Good n)
    → Safe Good (if b then m else n)
if-Safe Good true m n first second = first refl
if-Safe Good false m n first second = second refl

is_none-false :
    {T : Type 0} (b : Bool) (v : Option T) → (b || is_none v) ≡ false → (x : T) × (v ≡ some x)
unfolding is_none
is_none-false b (some x) h = (x, refl)
is_none-false true none h = cc
is_none-false false none h = cc

module _ {S : Stream} where
  -- The values of the parsers are all there.
  abbrev Filled : (ps : Parsers S) → States ps → Type 0
  Filled ps sts = (v : Outputs ps) × ((unwrap_all ps sts).0 ≡ some v)

  Filled-cons :
      {A : Type 0} (p : Parser S A) (ps : Parsers S) (x : A) (s : SequenceState A p.PartialState)
      → (sts : States ps) → s.value ≡ some x
      → Filled ps sts
      → Filled (cons p ps) (s, sts)
  unfolding unwrap_all
  Filled-cons p ps x s sts there (v, filled) = ((x, v), rw (there, filled))

  module _ (Out : Type 0) where
    Reached : (ps : Parsers S) → Walking Out ps → Type 0
    Reached ps (reached_end pr, input, sts) = Filled ps sts
    Reached ps (failed e offset, input, sts) = Unit

    -- A parser's value joins those of the parsers after it.
    Reached-cons :
        {A : Type 0} (p : Parser S A) (ps : Parsers S) (x : A) (s : SequenceState A p.PartialState)
        → s.value ≡ some x
        → (w : Walking Out ps) → Reached ps w
        → Reached (cons p ps) (w.0, w.1, (s, w.2))
    unfolding Reached
    Reached-cons p ps x s there (reached_end pr, input, sts) filled =
        Filled-cons p ps x s sts there filled
    Reached-cons p ps x s there (failed e offset, input, sts) filled = tt

    walk_result-Safe :
        {A : Type 0} (rs : List (Reporter S)) (p : Parser S A) (ps : Parsers S)
        (before : S.Checkpoint) (pr : Progress)
        → (s : SequenceState A p.PartialState) (sts : States ps)
        → (k : Progress → S.Input → Run (Walking Out ps))
        → ((pr' : Progress) (input : S.Input) → Safe (Reached ps) (k pr' input))
        → (r : Step S A p.PartialState)
        → Safe (Reached (cons p ps)) (walk_result Out rs p ps before pr s sts k r)
    unfolding walk_result Reached
    walk_result-Safe rs p ps before pr s sts k safe (commit_ok x, input, st) =
        Safe-bind (Reached ps) (Reached (cons p ps)) (k _ input) _ (safe _ input)
          (λ w reached. Reached-cons p ps x (record { value = some x; state = st }) refl w reached)
    walk_result-Safe rs p ps before pr s sts k safe (peek_ok x, input, st) =
        Safe-bind (Reached ps) (Reached (cons p ps)) (k _ input) _ (safe _ input)
          (λ w reached. Reached-cons p ps x (record { value = some x; state = st }) refl w reached)
    walk_result-Safe rs p ps before pr s sts k safe (peek_err e, input, st) = tt
    walk_result-Safe rs p ps before pr s sts k safe (commit_err e, input, st) = tt

    walk-Safe :
        (rs : List (Reporter S)) (ps : Parsers S) (pr : Progress) (input : S.Input)
        (sts : States ps)
        → AllNeverPanic ps
        → Safe (Reached ps) (walk Out rs ps pr input sts)
    unfolding walk Reached unwrap_all
    walk-Safe rs nil pr input sts never = (tt, refl)
    walk-Safe rs (cons p ps) pr input (s, sts) (never, nevers) =
        if-Safe (Reached (cons p ps)) (is_first pr.mode || is_none s.value) _ _
          (λ _.
            Safe-bind (λ _. Unit {0}) (Reached (cons p ps)) (parse_mode p pr.mode input s.state) _
              (never pr.mode input s.state)
              λ r _.
                walk_result-Safe rs p ps (S.checkpoint input) _ s sts _
                  (λ pr' input'. walk-Safe rs ps pr' input' sts nevers) r)
          λ skipped.
            let (x, there) = is_none-false (is_first pr.mode) s.value skipped in
            Safe-bind (Reached ps) (Reached (cons p ps)) (walk Out rs ps pr input sts) _
              (walk-Safe rs ps pr input sts nevers)
              λ w reached. Reached-cons p ps x s there w reached

  tuple_walked-Safe :
      (ps : Parsers S) (w : Walking (Outputs ps) ps)
      → Reached (Outputs ps) ps w
      → Safe (λ _. Unit {0}) (tuple_walked ps w)
  unfolding tuple_walked Reached
  tuple_walked-Safe ps (reached_end pr, input, sts) (v, filled) = rw (filled, Safe) tt
  tuple_walked-Safe ps (failed e offset, input, sts) reached = tt

  -- The parsers after the first, once it has its value.
  tuple_rest-Safe :
      {A : Type 0} (p : Parser S A) (ps : Parsers S) (x : A) (s : SequenceState A p.PartialState)
      → (pr : Progress) (input : S.Input) (sts : States ps) → s.value ≡ some x
      → AllNeverPanic ps
      → Safe
          (λ _. Unit {0})
          (walk (Outputs (cons p ps)) (reporters (cons p ps)) ps pr input sts >>= λ w.
            tuple_walked (cons p ps) (w.0, w.1, (s, w.2)))
  tuple_rest-Safe p ps x s pr input sts there nevers =
      Safe-bind (Reached (Outputs (cons p ps)) ps) (λ _. Unit {0})
        (walk (Outputs (cons p ps)) (reporters (cons p ps)) ps pr input sts) _
        (walk-Safe (Outputs (cons p ps)) (reporters (cons p ps)) ps pr input sts nevers)
        λ w reached.
          tuple_walked-Safe (cons p ps) (w.0, w.1, (s, w.2))
            (Reached-cons (Outputs (cons p ps)) p ps x s there w reached)

  tuple_head-Safe :
      {A : Type 0} (p : Parser S A) (ps : Parsers S) (mode : ParseMode)
      → (st : TupleState (States (cons p ps))) (r : Step S A p.PartialState) → AllNeverPanic ps
      → Safe (λ _. Unit {0}) (tuple_head p ps mode st r)
  unfolding tuple_head
  tuple_head-Safe p ps mode st (commit_ok x, input, s) nevers =
      tuple_rest-Safe p ps x (record { value = some x; state = s }) _ input st.states.1 refl nevers
  tuple_head-Safe p ps mode st (peek_ok x, input, s) nevers =
      tuple_rest-Safe p ps x (record { value = some x; state = s }) _ input st.states.1 refl nevers
  tuple_head-Safe p ps mode st (peek_err e, input, s) nevers = tt
  tuple_head-Safe p ps mode st (commit_err e, input, s) nevers = tt

  -- Where none of its parsers panics, a tuple of parsers does not panic, whatever state it resumes
  -- from: `unwrap_value`, which has undefined behaviour on a missing value, finds all the values.
  pub tuple_step-Safe :
      {A : Type 0} (p : Parser S A) (ps : Parsers S) (mode : ParseMode) (input : S.Input)
      → (st : TupleState (States (cons p ps))) → NeverPanics p
      → AllNeverPanic ps
      → Safe (λ _. Unit {0}) (tuple_step p ps mode input st)
  unfolding tuple_step
  tuple_step-Safe p ps mode input st never nevers =
      if-Safe (λ _. Unit {0}) (is_first mode || is_none st.states.0.value) _ _
        (λ _.
          Safe-bind (λ _. Unit {0}) (λ _. Unit {0}) (parse_mode p mode input st.states.0.state) _
            (never mode input st.states.0.state) λ r _. tuple_head-Safe p ps mode st r nevers)
        λ skipped.
          let (x, there) = is_none-false (is_first mode) st.states.0.value skipped in
          tuple_rest-Safe p ps x st.states.0 _ input st.states.1 there nevers
