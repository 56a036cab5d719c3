-- ===== src/Parser/Repeat/Chain/Fold.antt =====
-- src/parser/repeat.rs: `chainl1` folds its rounds from the left, and ends after the last of them.
use combine.Prelude.{ℕ, zero, suc, ◌<◌, ◌≡◌, List, [], ◌∷◌, length, none, done, arith}
use combine.Error.Types.{commit, Tracked, commit_ok, peek_err}
use combine.Error.Commit.{merge}
use combine.Stream.Core.{Stream, IsResettable}
use combine.Parser.Core.{Parser, first_mode, resume_mode, parse_mode}
use combine.Parser.Core.Fresh.{parse_fresh, reset_then-resettable}
use combine.Parser.Sequence.Build.{pair}
use combine.Parser.Repeat.Chain.{
  chainl1, chainl1_loop, chainl1_step, set_chain_state, chainl1_round, chainl1_first,
}

-- What the rounds make of the first item.
unfoldable pub fold_left : {A : Type 0} → A → List ((A → A → A) × A) → A
fold_left l [] = l
fold_left l ((f, r) ∷ rounds) = fold_left (f l r) rounds

module _ {S : Stream} {A : Type 0} (p : Parser S A) (op : Parser S (A → A → A)) where
  -- The operator with the parser succeeds again and again, each time committed, and then fails with
  -- nothing committed; `last` is the input before that.
  pub data Rounds
      : S.Input → (pair op p).PartialState → List ((A → A → A) × A) → S.Input → Type 0 where
    stops :
        {input input' : S.Input} {st st' : (pair op p).PartialState} {e : Tracked S.Error}
        → (pair op p).parse_mode_impl first_mode input st ≡ done (peek_err e, input', st')
        → Rounds input st [] input
    goes_on :
        {input input' last : S.Input} {st st' : (pair op p).PartialState} {f : A → A → A} {r : A}
        {rounds : List ((A → A → A) × A)}
        → (pair op p).parse_mode_impl first_mode input st
          ≡ done (commit_ok (f, (r, tt)), input', st')
        → Rounds input' st' rounds last
        → Rounds input st ((f, r) ∷ rounds) last

  module _ (resettable : IsResettable S) where
    loop-folds :
        (fuel : ℕ) (l : A) (input last : S.Input) (st : (pair op p).PartialState)
        (rounds : List ((A → A → A) × A))
        → Rounds input st rounds last
        → length rounds < fuel
        → (st' : (pair op p).PartialState) × (chainl1_loop p op fuel first_mode l
              (commit tt)
              input
              st
            ≡ done (commit_ok (fold_left l rounds), last, (none, st')))
    unfolding chainl1_loop chainl1_round parse_mode fold_left merge
    loop-folds zero l input last st rounds runs enough = absurd (omega (arith, enough))
    loop-folds (suc fuel) l input last st [] (stops {st' = st'} failed) enough =
        (st', rw (failed, reset_then-resettable S resettable))
    loop-folds (suc fuel) l input last st ((f, r) ∷ rounds)
          (goes_on {input' = i} {st' = s} ran runs) enough =
        let (st', ended) = loop-folds fuel (f l r) i last s rounds runs (omega (arith, enough)) in
        (st', rw ran ended)

    -- With fuel above the number of the rounds, `chainl1` ends, with the left fold of the rounds, at
    -- the input before the round that failed.
    pub chainl1-folds :
        (fuel : ℕ) (input input' last : S.Input) (x : A) (st : p.PartialState)
        (rounds : List ((A → A → A) × A))
        → p.parse_mode_impl resume_mode input p.default ≡ done (commit_ok x, input', st)
        → Rounds input' (set_chain_state p op st (pair op p).default) rounds last
        → length rounds < fuel
        → parse_fresh (chainl1 p op fuel) input ≡ done (commit_ok (fold_left x rounds), last)
    unfolding chainl1 chainl1_step chainl1_first parse_fresh parse_mode pair
    chainl1-folds fuel input input' last x st rounds ran runs enough =
        let (st', ended) = loop-folds fuel x input' last _ rounds runs enough in rw (ran, ended)
