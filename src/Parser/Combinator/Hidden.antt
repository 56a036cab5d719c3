-- ===== src/Parser/Combinator/Hidden.antt =====
-- src/parser/combinator.rs: a parser whose state is hidden stops and goes on as the parser itself does.
use combine.Prelude.{◌≡◌, refl, some, Run, done, out_of_fuel, panicked, ◌>>=◌}
use combine.Error.Types.{commit_err}
use combine.Stream.Core.{Stream}
use combine.Parser.Core.{Parser, ParseMode, resume_mode, Step, drop_state, parse_mode}
use combine.Parser.Combinator.Wrap.{keep_state, any_partial_state}

keep-drop :
    (S : Stream) {A P : Type 0} (st : P) (m : Run (Step S A P))
    → ((m >>= λ r. done (keep_state (some st) r)) >>= λ r. done (drop_state S r))
      ≡ (m >>= λ r. done (drop_state S r))
unfolding keep_state
keep-drop S st (done (r, input, st')) = refl
keep-drop S st out_of_fuel = refl
keep-drop S st panicked = refl

module _ {S : Stream} {A : Type 0} where
  -- A run of the hidden parser that is resumed over another input.
  abbrev pub run_twice :
      (q : Parser S A)
      → ParseMode
      → S.Input
      → (S.Input → S.Input)
      → q.PartialState
      → Run (Step S A q.PartialState)
  run_twice q mode input more st = do
    (_, input', st') ← q.parse_mode_impl mode input st
    q.parse_mode_impl resume_mode (more input') st'

module _ {S : Stream} {A : Type 0} (p : Parser S A) where
  -- Where a parser stops with a committed error, and is resumed over an input that has grown, the
  -- parser that hides its state gives the same result and leaves the same input.
  pub any_partial_state-resumes :
      (input input' : S.Input) (more : S.Input → S.Input) (e : S.Error) (st : p.PartialState)
      → p.parse_mode_impl resume_mode input p.default ≡ done (commit_err e, input', st)
      → (run_twice (any_partial_state p) resume_mode input more (any_partial_state p).default
          >>= λ r. done (drop_state S r))
        ≡ (run_twice p resume_mode input more p.default >>= λ r. done (drop_state S r))
  unfolding any_partial_state keep_state parse_mode
  any_partial_state-resumes input input' more e st stopped =
      rw stopped (keep-drop S st (p.parse_mode_impl resume_mode (more input') st))
