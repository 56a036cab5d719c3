-- ===== src/Stream/Slice/While.antt =====
-- src/stream/mod.rs: the unrolled loop of `slice_uncons_while` splits a slice where the plain loop
-- would, reads no item out of bounds, and ends.
use combine.Prelude.{
  ℕ, zero, suc, ◌+◌, ◌-◌, ◌*◌, ◌≤◌, ◌<◌, ◌≡◌, refl, ap, ◌∙◌, Bool, true, false, List, [], ◌∷◌, some,
  none, done, ◌>>=◌, length, get_elem?, take, drop, take_while, drop_while, arith, ◌⊎◌, inl, inr,
  leb, leb→le, le→leb, sym, bind_assoc, Bool-cases, if◌then◌else◌,
}
use combine.Stream.Slice.{Slice, check, check_blocks, check_rest, slice_uncons_while, split_at}

module _ {T : Type 0} (f : T → Bool) where
  -- The number of items that pass the test before the first that does not.
  passing : List T → ℕ
  passing xs = length (take_while f xs)

  -- Where the plain loop, started at `i`, stops.
  stop : List T → ℕ → ℕ
  unfolding passing
  stop items i = i + passing (drop i items)

  -- The item at `i`, and the items from `i` on.
  pub item_cases :
      (items : List T) (i : ℕ)
      → ((get_elem? items i ≡ none) × (length items ≤ i) × (drop i items ≡ []))
        ⊎ ((x : T) × (get_elem? items i ≡ some x)
            × (i < length items)
            × (drop i items ≡ x ∷ drop (suc i) items))
  item_cases [] zero = inl (refl, omega arith, refl)
  item_cases [] (suc i) = inl (refl, omega arith, refl)
  item_cases (x ∷ items) zero = inr (x, refl, omega arith, refl)
  item_cases (x ∷ items) (suc i) = elim (item_cases items i) [
    | inl (e, l, d) ↦ inl (e, omega arith, d)
    | inr (y, e, l, d) ↦ inr (y, e, omega arith, d)
  ]

  stop-pass :
      (items : List T) (i : ℕ) (x : T)
      → drop i items ≡ x ∷ drop (suc i) items
      → f x ≡ true
      → stop items (i + 1) ≡ stop items i
  unfolding stop
  stop-pass items i x d h = let e : i + 1 ≡ suc i = omega arith in rw (e, d, h) (omega arith)

  stop-fail :
      (items : List T) (i : ℕ) (x : T)
      → drop i items ≡ x ∷ drop (suc i) items
      → f x ≡ false
      → i ≡ stop items i
  unfolding stop
  stop-fail items i x d h = rw (d, h) (omega arith)

  stop-end : (items : List T) (i : ℕ) → drop i items ≡ [] → i ≡ stop items i
  unfolding stop
  stop-end items i d = rw d (omega arith)

  module _ (items : List T) (i : ℕ) (x : T) (here : get_elem? items i ≡ some x) where
    check-pass : (n : ℕ) → f x ≡ true → check f (suc n) items i ≡ check f n items (i + 1)
    unfolding check
    check-pass n h = rw (here, h, check)

    check-fail : (n : ℕ) → f x ≡ false → check f (suc n) items i ≡ done (true, i)
    unfolding check
    check-fail n h = rw (here, h, check)

    check_rest-pass :
        (n : ℕ) → f x ≡ true → check_rest f (suc n) items i ≡ check_rest f n items (i + 1)
    unfolding check_rest
    check_rest-pass n h = rw (here, h, check_rest)

    check_rest-fail : (n : ℕ) → f x ≡ false → check_rest f (suc n) items i ≡ done i
    unfolding check_rest
    check_rest-fail n h = rw (here, h, check_rest)

  -- A run of `n` checks within the slice stops where the plain loop does, or passes all `n`.
  CheckSpec : ℕ → List T → ℕ → Type 0
  CheckSpec n items i =
      (check f n items i ≡ done (true, stop items i))
      ⊎ ((check f n items i ≡ done (false, i + n)) × (stop items (i + n) ≡ stop items i))

  check-stop : (n : ℕ) (items : List T) (i : ℕ) → i + n ≤ length items → CheckSpec n items i
  unfolding CheckSpec
  check-stop zero items i h = let e : i + 0 ≡ i = omega arith in inr (unfold check in rw e, rw e)
  check-stop (suc n) items i h = elim (item_cases items i) [
    | inl (e, l, d) ↦ absurd (omega arith)
    | inr (x, e, l, d) ↦ elim (Bool-cases (f x)) [
      | inr fails ↦
          inl (
            check-fail items i x e n fails ∙ ap (λ k. done (true, k)) (stop-fail items i x d fails))
      | inl passes ↦
          let step = check-pass items i x e n passes in
          let later = stop-pass items i x d passes in
          let shift : i + 1 + n ≡ i + suc n = omega arith in
          elim (check-stop n items (i + 1) (omega arith)) [
            | inl found ↦ inl (step ∙ found ∙ ap (λ k. done (true, k)) later)
            | inr (on, same) ↦ inr (rw (step, on, shift), rw (← shift, same) later)
          ]
    ]
  ]

  -- The blocks of eight stop where the plain loop does, or before the last items.
  BlockSpec : ℕ → List T → ℕ → Type 0
  BlockSpec fuel items i =
      (check_blocks f fuel items i ≡ done (true, stop items i))
      ⊎ ((j : ℕ) × (check_blocks f fuel items i ≡ done (false, j))
          × (stop items j ≡ stop items i)
          × (i ≤ j))

  check_blocks-stop :
      (fuel : ℕ) (items : List T) (i : ℕ) → length items - i < fuel → BlockSpec fuel items i
  unfolding BlockSpec CheckSpec
  check_blocks-stop zero items i h = absurd (omega arith)
  check_blocks-stop (suc fuel) items i h = elim (Bool-cases (leb 8 (length items - i))) [
    | inr few ↦ inr (i, unfold check_blocks in rw few, refl, omega arith)
    | inl many ↦
        let room : 8 ≤ length items - i = leb→le _ _ many in
        elim (check-stop 8 items i (omega arith)) [
          | inl found ↦ inl (unfold check_blocks in rw (many, found))
          | inr (on, same) ↦ elim (check_blocks-stop fuel items (i + 8) (omega arith)) [
            | inl found ↦
                inl (unfold check_blocks in rw (many, on, found) (ap (λ k. done (true, k)) same))
            | inr (j, stopped, same', le) ↦
                inr (j, unfold check_blocks in rw (many, on, stopped), same' ∙ same, omega arith)
          ]
        ]
  ]

  check_rest-stop :
      (fuel : ℕ) (items : List T) (i : ℕ)
      → length items - i < fuel
      → check_rest f fuel items i ≡ done (stop items i)
  check_rest-stop zero items i h = absurd (omega arith)
  check_rest-stop (suc fuel) items i h = elim (item_cases items i) [
    | inl (e, l, d) ↦ unfold check_rest in rw (e, check_rest) (ap done (stop-end items i d))
    | inr (x, e, l, d) ↦ elim (Bool-cases (f x)) [
      | inr fails ↦ check_rest-fail items i x e fuel fails ∙ ap done (stop-fail items i x d fails)
      | inl passes ↦
          check_rest-pass items i x e fuel passes
          ∙ check_rest-stop fuel items (i + 1) (omega arith)
          ∙ ap done (stop-pass items i x d passes)
    ]
  ]

  loops-stop :
      (fuel : ℕ) (items : List T) (i : ℕ)
      → length items < fuel
      → (check_blocks f fuel items i >>= λ r.
          (if r.0 then done r.1 else check_rest f fuel items r.1))
        ≡ done (stop items i)
  unfolding BlockSpec
  loops-stop fuel items i h = elim (check_blocks-stop fuel items i (omega arith)) [
    | inl found ↦ rw found
    | inr (j, stopped, same, le) ↦
        rw stopped (check_rest-stop fuel items j (omega arith) ∙ ap done same)
  ]

  stop-zero : (items : List T) → stop items 0 ≡ length (take_while f items)
  unfolding stop
  stop-zero items = omega arith

  pub loops-passing :
      (fuel : ℕ) (items : List T)
      → length items < fuel
      → (check_blocks f fuel items 0 >>= λ r.
          (if r.0 then done r.1 else check_rest f fuel items r.1))
        ≡ done (length (take_while f items))
  loops-passing fuel items h = loops-stop fuel items 0 h ∙ ap done (stop-zero items)

  pub take-passing :
      (items : List T) → take (length (take_while f items)) items ≡ take_while f items
  take-passing [] = refl
  take-passing (x ∷ items) = elim (Bool-cases (f x)) [
    | inl passes ↦ rw passes (ap (λ xs. x ∷ xs) (take-passing items))
    | inr fails ↦ rw fails
  ]

  pub drop-passing :
      (items : List T) → drop (length (take_while f items)) items ≡ drop_while f items
  drop-passing [] = refl
  drop-passing (x ∷ items) = elim (Bool-cases (f x)) [
    | inl passes ↦ rw passes (drop-passing items)
    | inr fails ↦ rw fails
  ]

  pub passing-le : (items : List T) → length (take_while f items) ≤ length items
  passing-le [] = omega arith
  passing-le (x ∷ items) = elim (Bool-cases (f x)) [
    | inl passes ↦ rw passes (omega (arith, passing-le items))
    | inr fails ↦ rw fails (omega arith)
  ]

  -- With fuel above the length, `slice_uncons_while` ends without a read out of bounds, and splits
  -- the slice behind the longest prefix of items that pass the test.
  pub slice_uncons_while-eq-take_while :
      (size fuel : ℕ) (s : Slice T)
      → length s.items < fuel
      → slice_uncons_while f size fuel s 0
        ≡ done (
          record { pointer = s.pointer; items = take_while f s.items },
          record {
            pointer = s.pointer + length (take_while f s.items) * size;
            items = drop_while f s.items;
          },
        )
  unfolding slice_uncons_while split_at
  slice_uncons_while-eq-take_while size fuel s h =
      sym (bind_assoc (check_blocks f fuel s.items 0) _ _)
      ∙ ap (λ m. m >>= λ j. split_at size j s) (loops-stop fuel s.items 0 h)
      ∙ rw (stop-zero, le→leb _ _ (passing-le s.items), take-passing, drop-passing)
