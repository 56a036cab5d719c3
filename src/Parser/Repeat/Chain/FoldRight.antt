-- ===== src/Parser/Repeat/Chain/FoldRight.antt =====
-- src/parser/repeat.rs: `chainr1` folds its rounds from the right, and ends after the last of them.
use combine.Prelude.{ℕ, zero, suc, ◌<◌, ◌≡◌, refl, List, [], ◌∷◌, length, done, arith}
use combine.Error.Types.{commit, Tracked, commit_ok, peek_err}
use combine.Error.Commit.{merge}
use combine.Stream.Core.{Stream, IsResettable}
use combine.Parser.Core.{Parser}
use combine.Parser.Core.Fresh.{reset_then-resettable}
use combine.Parser.Repeat.Chain.{
  chainr1, chainr1_loop, chainr1_lazy, chainr1_op, chainr1_right, chain_end,
}

-- What the rounds make of the first item.
unfoldable pub fold_right : {A : Type 0} → A → List ((A → A → A) × A) → A
fold_right l [] = l
fold_right l ((f, r) ∷ rounds) = f l (fold_right r rounds)

module _ {S : Stream} {A : Type 0} (p : Parser S A) (op : Parser S (A → A → A)) where
  -- The operator and then the parser succeed again and again, each time committed, until the operator
  -- fails with nothing committed; `last` is the input before that.
  pub data Rounds (last : S.Input) : S.Input → List ((A → A → A) × A) → Type 0 where
    stops :
        {input' : S.Input} {e : Tracked S.Error}
        → op.parse_lazy last ≡ done (peek_err e, input')
        → Rounds last last []
    goes_on :
        {input input' input'' : S.Input} {f : A → A → A} {r : A} {rounds : List ((A → A → A) × A)}
        → op.parse_lazy input ≡ done (commit_ok f, input')
        → p.parse_lazy input' ≡ done (commit_ok r, input'')
        → Rounds last input'' rounds
        → Rounds last input ((f, r) ∷ rounds)

  at_last :
      {last input : S.Input} {rounds : List ((A → A → A) × A)}
      → Rounds last input rounds
      → Rounds last last []
  at_last (stops failed) = stops failed
  at_last (goes_on ran item rest) = at_last rest

  module _ (resettable : IsResettable S) where
    loop-folds :
        (fuel : ℕ) (l : A) (input last : S.Input) (rounds : List ((A → A → A) × A))
        → Rounds last input rounds
        → length rounds < fuel
        → chainr1_loop p op fuel l (commit tt) input ≡ done (commit_ok (fold_right l rounds), last)
    unfolding chainr1_loop chainr1_op chainr1_right chain_end fold_right merge
    loop-folds zero l input last rounds runs enough = absurd (omega (arith, enough))
    loop-folds (suc fuel) l input last [] (stops failed) enough =
        rw (failed, reset_then-resettable S resettable) refl
    loop-folds (suc fuel) l input last ((f, r) ∷ rounds) (goes_on {input'' = i} ran item runs)
          enough =
        let inner = loop-folds fuel r i last rounds runs (omega (arith, enough)) in
        let outer =
          loop-folds fuel (f l (fold_right r rounds)) last last [] (at_last runs)
            (omega (arith, enough)) in
        rw (ran, item, inner, outer) refl

    -- On a stream that honours its checkpoints, where the first item and each of some rounds succeed and
    -- commit, and the operator then fails with nothing committed, `chainr1`, with fuel above the number
    -- of the rounds, ends with their right fold, at the input before the operator that failed.
    pub chainr1-folds :
        (fuel : ℕ) (input input' last : S.Input) (x : A) (rounds : List ((A → A → A) × A))
        → p.parse_lazy input ≡ done (commit_ok x, input')
        → Rounds last input' rounds
        → length rounds < fuel
        → (chainr1 p op fuel).parse_lazy input ≡ done (commit_ok (fold_right x rounds), last)
    unfolding chainr1 chainr1_lazy
    chainr1-folds fuel input input' last x rounds ran runs enough =
        rw (ran, loop-folds fuel x input' last rounds runs enough) refl

    -- On a stream that honours its checkpoints, where the first item and an operator succeed and commit,
    -- and the parser then fails with nothing committed, `chainr1` succeeds with the first item and leaves
    -- the input behind the operator.
    pub chainr1-trailing :
        (fuel : ℕ) (input input' behind i : S.Input) (x : A) (f : A → A → A) (e : Tracked S.Error)
        → p.parse_lazy input ≡ done (commit_ok x, input')
        → op.parse_lazy input' ≡ done (commit_ok f, behind)
        → p.parse_lazy behind ≡ done (peek_err e, i)
        → (chainr1 p op (suc fuel)).parse_lazy input ≡ done (commit_ok x, behind)
    unfolding chainr1 chainr1_lazy chainr1_loop chainr1_op chainr1_right chain_end merge
    chainr1-trailing fuel input input' behind i x f e item ran failed =
        rw (item, ran, failed, reset_then-resettable S resettable) refl
