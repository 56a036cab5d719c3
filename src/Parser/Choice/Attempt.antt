-- ===== src/Parser/Choice/Attempt.antt =====
-- src/parser/combinator.rs and choice.rs: `attempt` lets `or` go back.
use combine.Prelude.{◌≡◌, refl, ap, ◌∙◌, false, Result, ok, err, [], ◌∷◌, done}
use combine.Error.Types.{Tracked, tracked, ParseResult, commit_ok, peek_ok, commit_err, peek_err}
use combine.Error.ParseResult.{is_ok}
use combine.Stream.Core.{Stream, IsResettable, IsComplete}
use combine.Parser.Core.{Parser, parse_committed_mode, settle, settle_peek, report_next, Outcome}
use combine.Parser.Core.Fresh.{parse_fresh, parse_fresh-inv, reset_then-resettable}
use combine.Parser.Combinator.{attempt, uncommit}
use combine.Parser.Choice.{choice, or}
use combine.Parser.Choice.First.{FailsPeek, Decides, choice-first}

-- The parser leaves `parse_committed_mode` as the trait has it.
abbrev pub IsPlain : {S : Stream} {A : Type 0} → Parser S A → Type 0
IsPlain {S} p =
    p.parse_committed_mode ≡ parse_committed_mode S p.parse_mode_impl p.reporter.add_error

pub or-choice :
    {S : Stream} {A : Type 0} (p q : Parser S A) (input : S.Input)
    → parse_fresh (or p q) input ≡ parse_fresh (choice (p ∷ q ∷ [])) input
unfolding or choice parse_fresh
or-choice p q input = refl

module _ (S : Stream) {A : Type 0} (resettable : IsResettable S) where
  -- A failure that committed to nothing.
  abbrev Fails : Outcome S A → Type 0
  Fails r = (e : Tracked S.Error) × (i : S.Input) × (r ≡ (peek_err e, i))

  module _ (before : S.Input) (add_error : Tracked S.Error → Tracked S.Error) where
    report_next-Fails :
        (e : Tracked S.Error) (next : Result S.Token S.StreamErrorFor × S.Input)
        → Fails (report_next S (S.checkpoint before) add_error e next)
    unfolding report_next
    report_next-Fails e (ok t, input) = (_, _, reset_then-resettable S resettable _ _ _ _)
    report_next-Fails e (err _, input) = (_, _, refl)

    settle_peek-Fails :
        (e : Tracked S.Error) (now : S.Input)
        → Fails (settle_peek S (S.checkpoint before) add_error e now)
    unfolding settle_peek
    settle_peek-Fails e now =
        rw (reset_then-resettable S resettable) (report_next-Fails e (S.uncons before))

  -- A failed parse, settled and then uncommitted, has committed to nothing.
  settled-Fails :
      (complete : IsComplete S) (add_error : Tracked S.Error → Tracked S.Error)
      → (before input : S.Input) (r : ParseResult A S.Error) → is_ok r ≡ false
      → let settled = settle S (S.checkpoint before) add_error (r, input) in
        Fails (uncommit S settled.1 settled.0, settled.1)
  unfolding settle is_ok uncommit
  settled-Fails complete add_error before input (commit_ok x) h = cc
  settled-Fails complete add_error before input (peek_ok x) h = cc
  settled-Fails complete add_error before input (commit_err e) h =
      (tracked e, input, rw (complete input))
  settled-Fails complete add_error before input (peek_err e) h =
      let (e', i, settled) = settle_peek-Fails before add_error e input in (e', i, rw settled)

module _ {S : Stream} {A : Type 0} (resettable : IsResettable S) (complete : IsComplete S) where
  -- On a complete input of a stream that honours its checkpoints, a plain parser that fails, fails
  -- without committing under `attempt`.
  pub attempt-FailsPeek :
      (p : Parser S A)
      → IsPlain p
      → (input input' : S.Input) (r : ParseResult A S.Error) → is_ok r ≡ false
      → parse_fresh p input ≡ done (r, input')
      → FailsPeek input (attempt p)
  unfolding attempt parse_fresh parse_committed_mode
  attempt-FailsPeek p plain input input' r failed ran =
      let (st, stepped) = parse_fresh-inv p input input' r ran in
      let (e, i, fails) =
        settled-Fails S resettable complete p.reporter.add_error input input' r failed in
      (e, i, rw (plain, stepped) (ap done fails))

  -- On a complete input of a stream that honours its checkpoints, `or(attempt(p), q)` does what `q`
  -- does from the start whenever `p`, a plain parser, fails, also where `p` had committed, and `q` does
  -- not fail without committing.
  pub or-attempt :
      (p q : Parser S A)
      → IsPlain p
      → (input i₁ i₂ : S.Input) (r s : ParseResult A S.Error) → is_ok r ≡ false
      → Decides s
      → parse_fresh p input ≡ done (r, i₁)
      → parse_fresh q input ≡ done (s, i₂)
      → parse_fresh (or (attempt p) q) input ≡ done (s, i₂)
  or-attempt p q plain input i₁ i₂ r s failed d ran₁ ran₂ =
      or-choice (attempt p) q input
      ∙ choice-first resettable (attempt p ∷ []) q [] input i₂ s d
          (attempt-FailsPeek p plain input i₁ r failed ran₁, tt) ran₂
