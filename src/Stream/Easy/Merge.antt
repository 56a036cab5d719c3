-- ===== src/Stream/Easy/Merge.antt =====
-- src/stream/easy.rs: which errors are left when errors are added and merged.
use Prim.Native.Nat.{Ordering}
use mathlib.Core.List.{Mem}
use combine.Prelude.{
  ◌≡◌, refl, Bool, true, false, not, ◌&&◌, List, [], ◌∷◌, ◌++◌, all, Bool-cases, inl, inr, ◌⊎◌,
}
use combine.Stream.Easy.{
  EasyError, Errors, eq_error, is_new, push_new, push_all, merge_by, merge_errors,
}

and-split : (a b : Bool) → (a && b) ≡ true → (a ≡ true) × (b ≡ true)
and-split true b h = (refl, h)
and-split false b h = cc

and-join : (a b : Bool) → a ≡ true → b ≡ true → (a && b) ≡ true
and-join a b ha hb = rw (ha, hb) refl

all-snoc :
    {A : Type 0} (p : A → Bool) (xs : List A) (x : A)
    → all p xs ≡ true
    → p x ≡ true
    → all p (xs ++ x ∷ []) ≡ true
all-snoc p [] x h hx = and-join (p x) true hx refl
all-snoc p (y ∷ ys) x h hx =
    let (first, rest) = and-split (p y) (all p ys) h in
    and-join (p y) (all p (ys ++ x ∷ [])) first (all-snoc p ys x rest hx)

module _ {T R X : Type 0} (eq_token : T → T → Bool) (eq_range : R → R → Bool) where
  -- No error equals one before it.
  unfoldable pub Distinct : List (EasyError T R X) → Type 0
  unfolding eq_error
  Distinct [] = Unit
  Distinct (e ∷ es) =
      (all (λ later. not (eq_error eq_token eq_range e later)) es ≡ true) × Distinct es

  push-Distinct :
      (errors : List (EasyError T R X)) (e : EasyError T R X)
      → Distinct errors
      → is_new eq_token eq_range e errors ≡ true
      → Distinct (errors ++ e ∷ [])
  unfolding Distinct is_new
  push-Distinct [] e distinct new = (refl, tt)
  push-Distinct (d ∷ errors) e (first, distinct) new =
      let (here, there) = and-split (not (eq_error eq_token eq_range d e)) _ new in
      (
        all-snoc (λ later. not (eq_error eq_token eq_range d later)) errors e first here,
        push-Distinct errors e distinct there,
      )

  push_new-Distinct :
      (errors : List (EasyError T R X)) (e : EasyError T R X)
      → Distinct errors
      → Distinct (push_new eq_token eq_range e errors)
  unfolding push_new
  push_new-Distinct errors e distinct = elim (Bool-cases (is_new eq_token eq_range e errors)) [
    | inl new ↦ rw new (push-Distinct errors e distinct new)
    | inr old ↦ rw old distinct
  ]

  push_all-Distinct :
      (errors added : List (EasyError T R X))
      → Distinct errors
      → Distinct (push_all eq_token eq_range errors added)
  unfolding push_all
  push_all-Distinct errors [] distinct = distinct
  push_all-Distinct errors (e ∷ added) distinct =
      push_all-Distinct (push_new eq_token eq_range e errors) added
        (push_new-Distinct errors e distinct)

  -- An error is in the list, or equals one there.
  abbrev pub Covers : List (EasyError T R X) → EasyError T R X → Type 0
  Covers errors e = Mem e errors ⊎ (is_new eq_token eq_range e errors ≡ false)

  module _ {P : Type 0} (cmp : P → P → Ordering) where
    merge_by-Distinct :
        (order : Ordering) (a b : Errors T R X P)
        → Distinct a.errors
        → Distinct b.errors
        → Distinct (merge_by eq_token eq_range order a b).errors
    unfolding merge_by
    merge_by-Distinct Ordering.lt a b da db = db
    merge_by-Distinct Ordering.eq a b da db = push_all-Distinct a.errors b.errors da
    merge_by-Distinct Ordering.gt a b da db = da

    -- Merging two lists of errors in which no error equals one before it gives such a list, whatever
    -- their positions.
    pub merge_errors-Distinct :
        (a b : Errors T R X P)
        → Distinct a.errors
        → Distinct b.errors
        → Distinct (merge_errors eq_token eq_range cmp a b).errors
    unfolding merge_errors
    merge_errors-Distinct a b da db = merge_by-Distinct (cmp a.position b.position) a b da db
