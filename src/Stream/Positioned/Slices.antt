-- ===== src/Stream/Positioned/Slices.antt =====
-- src/stream/position.rs: `uncons_while` and `uncons_while1` of a stream beside a positioner, where the
-- stream inside is a slice.
use combine.Prelude.{
  ℕ, suc, ◌+◌, ◌*◌, ◌≡◌, refl, ap, ◌∙◌, Bool, Bool-cases, inl, inr, List, [], ◌∷◌, Result, ok, Run,
  done, ◌>>=◌, length, take_while, drop_while, arith, zero,
}
use combine.Error.Types.{ParseResult}
use combine.Error.Traits.{ParseError}
use combine.Error.Unexpected.{UnexpectedParse}
use combine.Stream.Slice.{Slice, slice_stream, uncons}
use combine.Stream.Slice.Closure.{
  updating, updated, slice_uncons_while_with, slice_uncons_while1_with,
  slice_uncons_while_with-updated,
}
use combine.Stream.Positioned.{Positioner, positioned}

module _ {T : Type 0} (size : ℕ) (X : Positioner T (Slice T)) where
  unfoldable pub positioned_while :
      (T → Bool) → Slice T × X.Self → Run (Result (Slice T) UnexpectedParse × (Slice T × X.Self))
  unfolding updating slice_uncons_while_with
  positioned_while predicate (s, x) = do
    (result, after) ←
        slice_uncons_while_with (updating predicate X.update) size (suc (length s.items)) s 0 x
    done (ok result, after)

  unfoldable pub positioned_while1 :
      (T → Bool)
      → Slice T × X.Self
      → Run (ParseResult (Slice T) UnexpectedParse × (Slice T × X.Self))
  unfolding updating slice_uncons_while1_with
  positioned_while1 predicate (s, x) =
      slice_uncons_while1_with (updating predicate X.update) size (suc (length s.items)) s x

  module _ (parse_error : ParseError T (Slice T) X.Position UnexpectedParse UnexpectedParse) where
    -- What a number of single tokens leaves.
    unfoldable pub unconsed : ℕ → Slice T × X.Self → Slice T × X.Self
    unfolding positioned
    unconsed zero s = s
    unconsed (suc n) s = unconsed n ((positioned (slice_stream T size) X parse_error).uncons s).1

    unconsed-passing :
        (f : T → Bool) (pointer : ℕ) (items : List T) (x : X.Self)
        → unconsed (length (take_while f items)) (record { pointer = pointer; items = items }, x)
          ≡ (
            record {
              pointer = pointer + length (take_while f items) * size;
              items = drop_while f items;
            },
            updated X.update x (take_while f items),
          )
    unfolding unconsed updated uncons
    unconsed-passing f pointer [] x =
        ap (λ (p : ℕ). (record { pointer = p; items = [] }, x)) (omega arith)
    unconsed-passing f pointer (t ∷ items) x = elim (Bool-cases (f t)) [
      | inr fails ↦
          let same : pointer ≡ pointer + 0 * size = omega arith in
          rw (fails) (ap (λ (p : ℕ). (record { pointer = p; items = t ∷ items }, x)) same)
      | inl passes ↦ rw passes (
          unconsed-passing f (pointer + size) items (X.update t x)
          ∙ ap
              (λ (p : ℕ). (
                record { pointer = p; items = drop_while f items },
                updated X.update (X.update t x) (take_while f items),
              ))
              (grind arith))
    ]

    -- `uncons_while` gives the longest prefix of tokens that pass, and leaves the slice and the
    -- positioner as so many single tokens leave them.
    pub positioned_while-unconsed :
        (f : T → Bool) (s : Slice T) (x : X.Self)
        → positioned_while f (s, x)
          ≡ done (
            ok (record { pointer = s.pointer; items = take_while f s.items }),
            unconsed (length (take_while f s.items)) (s, x),
          )
    unfolding positioned_while
    positioned_while-unconsed f s x =
        rw
          (
            slice_uncons_while_with-updated f X.update x size (suc (length s.items)) s
                (omega arith),
            unconsed-passing f s.pointer s.items x,
          )
          refl
