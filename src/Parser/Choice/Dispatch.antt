-- ===== src/Parser/Choice/Dispatch.antt =====
-- src/parser/choice.rs: `dispatch!`: the parser of the arm that a value selects, and the state of that arm.
use combine.Prelude.{List, [], ◌∷◌, Option, some, none, Run, done, ◌>>=◌, ◌⊎◌, inl, inr}
use combine.Stream.Core.{Stream}
use combine.Parser.Core.{Parser, Reporter, ParseMode, Step, parse_mode, resumable}

module _ {S : Stream} {A : Type 0} where
  -- The states of the arms, `Dispatch<A::PartialState, ..>`, and which arm is selected.
  abbrev pub ArmState : List (Parser S A) → Type 0
  ArmState [] = ⊥
  ArmState (p ∷ ps) = p.PartialState ⊎ ArmState ps

  abbrev pub Arm : List (Parser S A) → Type 0
  Arm [] = ⊥
  Arm (p ∷ ps) = Unit {0} ⊎ Arm ps

  -- The state where it is of the first arm, and of another.
  abbrev pub first_arm :
      (p : Parser S A) (ps : List (Parser S A)) → Option (ArmState (p ∷ ps)) → p.PartialState
  first_arm p ps none = p.default
  first_arm p ps (some (inl st)) = st
  first_arm p ps (some (inr _)) = p.default

  abbrev pub other_arm :
      (p : Parser S A) (ps : List (Parser S A)) → Option (ArmState (p ∷ ps)) → Option (ArmState ps)
  other_arm p ps none = none
  other_arm p ps (some (inl _)) = none
  other_arm p ps (some (inr st)) = some st

  -- The state of the selected arm is made fresh where it is of another.
  unfoldable pub dispatch_step :
      (ps : List (Parser S A))
      → Arm ps
      → ParseMode
      → S.Input
      → Option (ArmState ps)
      → Run (Step S A (Option (ArmState ps)))
  unfolding parse_mode
  dispatch_step [] arm mode input st = elim arm [ ]
  dispatch_step (p ∷ ps) (inl _) mode input st = do
    (r, input', st') ← parse_mode p mode input (first_arm p ps st)
    done (r, input', some (inl st'))
  dispatch_step (p ∷ ps) (inr arm) mode input st = do
    (r, input', st') ← dispatch_step ps arm mode input (other_arm p ps st)
    done (r, input', elim st' [ none ↦ none | some s ↦ some (inr s) ])

  unfoldable pub arm_reporter : (ps : List (Parser S A)) → Arm ps → Reporter S
  arm_reporter [] arm = elim arm [ ]
  arm_reporter (p ∷ ps) (inl _) = p.reporter
  arm_reporter (p ∷ ps) (inr arm) = arm_reporter ps arm

  -- The macro overrides `parse_mode` itself.
  unfoldable pub dispatch : (ps : List (Parser S A)) → Arm ps → Parser S A
  unfolding dispatch_step arm_reporter resumable
  dispatch ps arm = resumable S none (dispatch_step ps arm) (record {
    add_error = (arm_reporter ps arm).add_error;
    add_committed_expected_error = λ e. e;
    parser_count = 1;
  })
