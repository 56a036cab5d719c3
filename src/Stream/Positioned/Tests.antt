-- ===== src/Stream/Positioned/Tests.antt =====
-- The theorem on `uncons_while` beside a positioner, applied to the index as the positioner.
use combine.Prelude.{ℕ, ◌≡◌, Bool, List, [], ◌∷◌, ok, done, ltb}
use combine.Error.Unexpected.{unexpected_parse_error}
use combine.Stream.Slice.{Slice}
use combine.Stream.Positioned.{Positioner, index_positioner}
use combine.Stream.Positioned.Slices.{positioned_while, unconsed, positioned_while-unconsed}

abbrev at : ℕ → List ℕ → Slice ℕ
at pointer items = record { pointer = pointer; items = items }

abbrev index : Positioner ℕ (Slice ℕ)
index = index_positioner ℕ (Slice ℕ) (λ s. 0)

abbrev small : ℕ → Bool
small x = ltb x 5

positioned_while-unconsed_example :
    positioned_while 4 index small (at 100 (1 ∷ 2 ∷ 7 ∷ []), 5)
    ≡ done (
      ok (at 100 (1 ∷ 2 ∷ [])),
      unconsed 4 index (unexpected_parse_error ℕ (Slice ℕ) ℕ) 2 (at 100 (1 ∷ 2 ∷ 7 ∷ []), 5),
    )
positioned_while-unconsed_example =
    positioned_while-unconsed 4 index (unexpected_parse_error ℕ (Slice ℕ) ℕ) small
      (at 100 (1 ∷ 2 ∷ 7 ∷ [])) 5
