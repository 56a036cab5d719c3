-- ===== src/Parser/Repeat/Iter/Runs.antt =====
-- src/parser/repeat.rs: the loop over `Iter` fills the collection with what the parser gives, until it
-- fails with nothing committed.
use combine.Prelude.{ℕ, zero, suc, ◌<◌, ◌≡◌, refl, Bool, true, List, [], ◌∷◌, length, done, arith}
use combine.Error.Types.{Tracked, commit_ok, peek_err}
use combine.Stream.Core.{Stream, IsResettable}
use combine.Parser.Core.{Parser, first_mode, parse_mode, set_first}
use combine.Parser.Repeat.Iter.{Collection, stopped, iter_from, next, next_result, drain}

unfoldable pub filled : {A F : Type 0} → Collection A F → F → List A → F
filled c elements [] = elements
filled c elements (x ∷ xs) = filled c (c.extend elements x) xs

module _ {S : Stream} {A : Type 0} (p : Parser S A) where
  -- The parser succeeds again and again, each time committed, and then fails with nothing committed;
  -- `last` is the input before that.
  pub data Runs (last : S.Input) : S.Input → p.PartialState → List A → Type 0 where
    stops :
        {input' : S.Input} {st st' : p.PartialState} {e : Tracked S.Error}
        → p.parse_mode_impl first_mode last st ≡ done (peek_err e, input', st')
        → Runs last last st []
    goes_on :
        {input input' : S.Input} {st st' : p.PartialState} {x : A} {xs : List A}
        → p.parse_mode_impl first_mode input st ≡ done (commit_ok x, input', st')
        → Runs last input' st' xs
        → Runs last input st (x ∷ xs)

  -- Whether anything was committed to.
  abbrev pub committed_after : Bool → List A → Bool
  committed_after b [] = b
  committed_after b (x ∷ xs) = true

  committed_after-true : (xs : List A) → committed_after true xs ≡ true
  committed_after-true [] = refl
  committed_after-true (x ∷ xs) = refl

  module _ {F : Type 0} (c : Collection A F) (resettable : IsResettable S) where
    pub drain-filled :
        (fuel : ℕ) (b : Bool) (input last : S.Input) (st : p.PartialState) (xs : List A)
        (elements : F)
        → Runs last input st xs
        → length xs < fuel
        → (st' : p.PartialState) × (drain c fuel p elements (iter_from b first_mode input st)
            ≡ done (
              filled c elements xs,
              record (iter_from {S = S} (committed_after b xs) first_mode last st') {
                state = stopped;
              },
            ))
    unfolding drain next next_result parse_mode set_first filled
    drain-filled zero b input last st xs elements runs enough = absurd (omega (arith, enough))
    drain-filled (suc fuel) b input last st [] elements (stops {st' = st'} failed) enough =
        (st', rw (failed, resettable) refl)
    drain-filled (suc fuel) b input last st (x ∷ xs) elements
          (goes_on {input' = i} {st' = s} ran runs) enough =
        let (st', drained) =
          drain-filled fuel true i last s xs (c.extend elements x) runs (omega (arith, enough)) in
        (st', rw (ran, drained, committed_after-true xs) refl)
