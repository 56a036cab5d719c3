-- ===== src/Parser/Repeat/SepBy/Empty.antt =====
-- src/parser/repeat.rs: what `sep_by` and `sep_by1` give where their parser does not start.
use combine.Prelude.{◌≡◌, refl, ◌∙◌, ℕ, [], ◌∷◌, done}
use combine.Error.Types.{peek_ok, peek_err}
use combine.Stream.Core.{Stream, IsResettable}
use combine.Parser.Core.{Parser, parse_mode}
use combine.Parser.Core.Fresh.{parse_fresh, parse_fresh-inv}
use combine.Parser.Function.{fn_parser}
use combine.Parser.Choice.{or}
use combine.Parser.Choice.First.{FailsPeek, choice-first}
use combine.Parser.Choice.Attempt.{or-choice}
use combine.Parser.Sequence.Build.{with}
use combine.Parser.Repeat.Iter.{Collection}
use combine.Parser.Repeat.SepBy.{sep_by1, sep_by, sep_by1_step, sep_by1_first, nothing, second}

module _ {S : Stream} {A B F : Type 0} (c : Collection A F) (fuel : ℕ) (p : Parser S A)
    (separator : Parser S B) where
  second-default : second c fuel p separator (with separator p).default ≡ p.default
  unfolding with
  second-default = refl

  -- Where the parser fails without committing, so does `sep_by1`.
  sep_by1-FailsPeek :
      (input : S.Input) → FailsPeek input p → FailsPeek input (sep_by1 c fuel p separator)
  unfolding sep_by1 sep_by1_step sep_by1_first parse_fresh parse_mode with
  sep_by1-FailsPeek input (e, i, failed) =
      let (st, stepped) = parse_fresh-inv p input i (peek_err e) failed in (e, i, rw stepped)

  pub sep_by-or :
      (input : S.Input)
      → parse_fresh (sep_by c fuel p separator) input
        ≡ parse_fresh (or (sep_by1 c fuel p separator) (nothing c fuel p separator)) input
  unfolding sep_by parse_fresh parse_mode
  sep_by-or input = refl

  nothing-fresh :
      (input : S.Input)
      → parse_fresh (nothing c fuel p separator) input ≡ done (peek_ok c.empty, input)
  unfolding nothing parse_fresh fn_parser
  nothing-fresh input = refl

  -- On a stream that honours its checkpoints, where the parser fails without committing, `sep_by`
  -- gives the empty collection, has committed to nothing, and leaves the input as it was.
  pub sep_by-empty :
      (input : S.Input)
      → IsResettable S
      → FailsPeek input p
      → parse_fresh (sep_by c fuel p separator) input ≡ done (peek_ok c.empty, input)
  sep_by-empty input resettable fails =
      sep_by-or input
      ∙ or-choice (sep_by1 c fuel p separator) (nothing c fuel p separator) input
      ∙ choice-first resettable (sep_by1 c fuel p separator ∷ []) (nothing c fuel p separator) []
          input input (peek_ok c.empty) tt (sep_by1-FailsPeek input fails, tt) (nothing-fresh input)
