-- ===== src/Parser/Choice/First.antt =====
-- src/parser/choice.rs: `choice` takes the first parser that does not fail before it commits.
use combine.Prelude.{
  ◌≡◌, refl, List, [], ◌∷◌, ◌++◌, Option, some, none, All, done, inl, inr, if◌then◌else◌,
}
use combine.Error.Types.{Tracked, ParseResult, commit_ok, peek_ok, commit_err, peek_err}
use combine.Stream.Core.{Stream, IsResettable}
use combine.Parser.Core.{Parser}
use combine.Parser.Core.Fresh.{parse_fresh, parse_fresh-inv, reset_then-resettable}
use combine.Parser.Choice.{choice, do_choice, Chosen, Failure}

-- The parser fails on the input and commits to nothing.
abbrev pub FailsPeek : {S : Stream} {A : Type 0} → S.Input → Parser S A → Type 0
FailsPeek {S} input p =
    (e : Tracked S.Error) × (input' : S.Input) × (parse_fresh p input ≡ done (peek_err e, input'))

-- The result is not a failure that committed to nothing.
abbrev pub Decides : {A E : Type 0} → ParseResult A E → Type 0
Decides (commit_ok x) = Unit
Decides (peek_ok x) = Unit
Decides (commit_err e) = Unit
Decides (peek_err e) = ⊥

module _ {S : Stream} {A : Type 0} (resettable : IsResettable S) where
  do_choice-head :
      (p : Parser S A) (post : List (Parser S A))
      → (input input' : S.Input) (failures : List (Failure S)) (r : ParseResult A S.Error)
      → Decides r
      → parse_fresh p input ≡ done (r, input')
      → (c : Option (Chosen (p ∷ post))) × (do_choice (p ∷ post) input failures input
          ≡ done (r, input', c))
  unfolding do_choice
  do_choice-head p post input input' failures (commit_ok x) d ran =
      (none, rw ((parse_fresh-inv p input input' (commit_ok x) ran).1))
  do_choice-head p post input input' failures (peek_ok x) d ran =
      (none, rw ((parse_fresh-inv p input input' (peek_ok x) ran).1))
  do_choice-head p post input input' failures (commit_err e) d ran =
      let (st, stepped) = parse_fresh-inv p input input' (commit_err e) ran in
      (
        if S.eq_position (S.position input') (S.position input) then none else some (inl st),
        rw stepped,
      )
  do_choice-head p post input input' failures (peek_err e) d ran = elim d [ ]

  do_choice-skip :
      (pre : List (Parser S A)) (p : Parser S A) (post : List (Parser S A))
      → (input input' : S.Input) (failures : List (Failure S)) (r : ParseResult A S.Error)
      → Decides r
      → All (FailsPeek input) pre
      → parse_fresh p input ≡ done (r, input')
      → (c : Option (Chosen (pre ++ p ∷ post))) × (do_choice (pre ++ p ∷ post) input failures input
          ≡ done (r, input', c))
  unfolding do_choice
  do_choice-skip [] p post input input' failures r d fails ran =
      do_choice-head p post input input' failures r d ran
  do_choice-skip (q ∷ pre) p post input input' failures r d ((e, i, failed), fails) ran =
      let (st, stepped) = parse_fresh-inv q input i (peek_err e) failed in
      let (c, rest) =
        do_choice-skip pre p post input input' (failures ++ (q.reporter, e) ∷ []) r d fails ran in
      (
        elim c [ none ↦ none | some c' ↦ some (inr c') ],
        rw (stepped, reset_then-resettable S resettable, rest),
      )

  -- On a stream that honours its checkpoints, `choice` does what the first of its parsers does that
  -- succeeds or fails after committing, from the input at which `choice` started; the parsers
  -- behind that one are not run, and those before it leave no trace.
  pub choice-first :
      (pre : List (Parser S A)) (p : Parser S A) (post : List (Parser S A))
      → (input input' : S.Input) (r : ParseResult A S.Error) → Decides r
      → All (FailsPeek input) pre
      → parse_fresh p input ≡ done (r, input')
      → parse_fresh (choice (pre ++ p ∷ post)) input ≡ done (r, input')
  unfolding choice parse_fresh
  choice-first pre p post input input' r d fails ran =
      let (c, chosen) = do_choice-skip pre p post input input' [] r d fails ran in rw chosen

  do_choice-none :
      (ps : List (Parser S A)) (input : S.Input) (f : Failure S) (failures : List (Failure S))
      → All (FailsPeek input) ps
      → (e : Tracked S.Error) × (do_choice ps input (f ∷ failures) input
          ≡ done (peek_err e, input, none))
  unfolding do_choice
  do_choice-none [] input f failures fails = (_, refl)
  do_choice-none (p ∷ ps) input f failures ((e, i, failed), fails) =
      let (st, stepped) = parse_fresh-inv p input i (peek_err e) failed in
      let (e', rest) = do_choice-none ps input f (failures ++ (p.reporter, e) ∷ []) fails in
      (e', rw (stepped, reset_then-resettable S resettable, rest))

  -- On a stream that honours its checkpoints, where each parser of a choice of at least one fails without committing, the
  -- choice fails without committing, and the input is back at its start.
  pub choice-none :
      (p : Parser S A) (ps : List (Parser S A)) (input : S.Input)
      → All (FailsPeek input) (p ∷ ps)
      → (e : Tracked S.Error) × (parse_fresh (choice (p ∷ ps)) input ≡ done (peek_err e, input))
  unfolding choice parse_fresh
  choice-none p ps input ((e, i, failed), fails) =
      let (st, stepped) = parse_fresh-inv p input i (peek_err e) failed in
      let (e', rest) = do_choice-none ps input (p.reporter, e) [] fails in
      (e', rw (stepped, reset_then-resettable S resettable, rest))
