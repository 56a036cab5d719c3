-- ===== src/Parser/Combinator/Recognize/Reads.antt =====
-- src/parser/combinator.rs: `recognize` gives the tokens that its parser has read.
use combine.Prelude.{
  ℕ, zero, suc, ◌<◌, ◌≡◌, refl, Bool, true, false, List, [], ◌∷◌, length, done, ok, arith,
}
use combine.Error.Types.{ParseResult, commit_ok, peek_ok}
use combine.Stream.Core.{Stream, IsResettable}
use combine.Parser.Core.{Parser, first_mode, parse_mode}
use combine.Parser.Core.Fresh.{parse_fresh, reset_then-resettable}
use combine.Parser.Repeat.Iter.{Collection}
use combine.Parser.Combinator.Recognize.{recognize, recognize_loop, recognize_result}

-- Success, committed or not.
abbrev pub success : {A E : Type 0} → Bool → A → ParseResult A E
success true v = commit_ok v
success false v = peek_ok v

module _ (S : Stream) where
  -- The tokens from an input to another, which is the first at its position.
  pub data Between (last : S.Input) : S.Input → List S.Token → Type 0 where
    ends : S.eq_position (S.position last) (S.position last) ≡ true → Between last last []
    reads :
        {input input' : S.Input} {t : S.Token} {ts : List S.Token}
        → S.eq_position (S.position input) (S.position last) ≡ false
        → S.uncons input ≡ (ok t, input')
        → Between last input' ts
        → Between last input (t ∷ ts)

  module _ {F : Type 0} (c : Collection S.Token F) where
    unfoldable pub extended : F → List S.Token → F
    extended elements [] = elements
    extended elements (t ∷ ts) = extended (c.extend elements t) ts

    loop-reads :
        {P : Type 0} (fuel : ℕ) (committed : Bool) (fail : S.Error → ParseResult F S.Error)
        (last input : S.Input) (ts : List S.Token) (st : P) (elements : F)
        → Between last input ts
        → length ts < fuel
        → recognize_loop S c fuel fail
            (λ xs. (success committed xs, c.empty))
            (S.position last)
            st
            elements
            input
          ≡ done (success committed (extended elements ts), last, (c.empty, st))
    unfolding recognize_loop extended
    loop-reads zero committed fail last input ts st elements between enough =
        absurd (omega (arith, enough))
    loop-reads (suc fuel) committed fail last input [] st elements (ends same) enough = rw same refl
    loop-reads (suc fuel) committed fail last input (t ∷ ts) st elements
          (reads {input' = i} other ran between) enough =
        rw (other, ran)
          (loop-reads fuel committed fail last i ts st (c.extend elements t) between
            (omega (arith, enough)))

module _ {S : Stream} {A F : Type 0} (c : Collection S.Token F) (p : Parser S A)
    (resettable : IsResettable S) where
  -- On a stream that honours its checkpoints, where the parser succeeds, and some tokens lead from the
  -- start to the input that it leaves, no earlier of which is at its position, fuel above their number
  -- is enough: `recognize` gives these tokens, at the same input, committed where the parser was.
  pub recognize-reads :
      (fuel : ℕ) (committed : Bool) (input last : S.Input) (ts : List S.Token) (v : A)
      (st : p.PartialState)
      → p.parse_mode_impl first_mode input p.default ≡ done (success committed v, last, st)
      → Between S last input ts
      → length ts < fuel
      → parse_fresh (recognize c fuel p) input
        ≡ done (success committed (extended S c c.empty ts), last)
  unfolding recognize recognize_result parse_fresh parse_mode
  recognize-reads fuel true input last ts v st ran between enough =
      rw
        (
          ran,
          reset_then-resettable S resettable,
          loop-reads S c fuel true _ last input ts st c.empty between enough,
        )
        refl
  recognize-reads fuel false input last ts v st ran between enough =
      rw
        (
          ran,
          reset_then-resettable S resettable,
          loop-reads S c fuel false _ last input ts st c.empty between enough,
        )
        refl
