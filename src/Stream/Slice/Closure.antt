-- ===== src/Stream/Slice/Closure.antt =====
-- src/stream/mod.rs: `slice_uncons_while` with a predicate that has a state, which
-- src/stream/position.rs gives it.
use combine.Prelude.{
  ℕ, zero, suc, ◌+◌, ◌-◌, ◌*◌, ◌<◌, ◌≡◌, refl, sym, le→leb, ap, ◌∙◌, Bool, true, false, Bool-cases,
  inl, inr, List, [], ◌∷◌, none, some, Run, done, panicked, out_of_fuel, ◌>>=◌, length, take,
  take_while, drop_while, get_elem?, leb, if◌then◌else◌, arith, bind_assoc,
}
use combine.Error.Types.{ParseResult, commit_ok, peek_err, tracked}
use combine.Error.Unexpected.{UnexpectedParse, unexpected}
use combine.Stream.Slice.{Slice, split_at, check, check_blocks, check_rest}
use combine.Stream.Slice.While.{item_cases, loops-passing, take-passing, drop-passing, passing-le}

module _ {T X : Type 0} (g : T → X → Bool × X) where
  -- `n` times `check!`; the predicate may change its state.
  unfoldable pub check_with : ℕ → List T → ℕ → X → Run (Bool × (ℕ × X))
  check_with zero items i x = done (false, (i, x))
  check_with (suc n) items i x = elim (get_elem? items i) [
    | none ↦ panicked
    | some t ↦
        let more = check_with n items (i + 1) (g t x).1 in
        if (g t x).0 then more else done (true, (i, (g t x).1))
  ]

  unfoldable pub check_blocks_with : ℕ → List T → ℕ → X → Run (Bool × (ℕ × X))
  unfolding check_with
  check_blocks_with zero items i x = out_of_fuel
  check_blocks_with (suc fuel) items i x =
      let block : Run (Bool × (ℕ × X)) = do
        (found, (i', x')) ← check_with 8 items i x
        elim found [ true ↦ done (true, (i', x')) | false ↦ check_blocks_with fuel items i' x' ]
      in if leb 8 (length items - i) then block else done (false, (i, x))

  unfoldable pub check_rest_with : ℕ → List T → ℕ → X → Run (ℕ × X)
  check_rest_with zero items i x = out_of_fuel
  check_rest_with (suc fuel) items i x = elim (get_elem? items i) [
    | none ↦ done (i, x)
    | some t ↦
        let more = check_rest_with fuel items (i + 1) (g t x).1 in
        if (g t x).0 then more else done (i, (g t x).1)
  ]

  unfoldable pub slice_uncons_while_with : ℕ → ℕ → Slice T → ℕ → X → Run (Slice T × (Slice T × X))
  unfolding check_blocks_with check_rest_with split_at
  slice_uncons_while_with size fuel s i x = do
    (found, (i₁, x₁)) ← check_blocks_with fuel s.items i x
    (i₂, x₂) ← if found then done (i₁, x₁) else check_rest_with fuel s.items i₁ x₁
    (result, rest) ← split_at size i₂ s
    done (result, (rest, x₂))

-- The state after the items.
unfoldable pub updated : {T X : Type 0} → (T → X → X) → X → List T → X
updated update x [] = x
updated update x (t ∷ ts) = updated update (update t x) ts

-- The predicate that `uncons_while` of `position::Stream` gives to the stream inside.
unfoldable pub updating : {T X : Type 0} → (T → Bool) → (T → X → X) → T → X → Bool × X
updating f update t x = if f t then (true, update t x) else (false, x)

updated-take :
    {T X : Type 0} (update : T → X → X) (start : X) (items : List T) (i : ℕ) (t : T)
    → get_elem? items i ≡ some t
    → update t (updated update start (take i items)) ≡ updated update start (take (suc i) items)
unfolding updated
updated-take update start [] i t h = cc
updated-take update start (x ∷ xs) zero t h = cc
updated-take update start (x ∷ xs) (suc i) t h = updated-take update (update x start) xs i t h

module _ {T X : Type 0} (f : T → Bool) (update : T → X → X) (start : X) where
  -- The state where the items before a place have passed.
  abbrev at_place : List T → ℕ → X
  at_place items i = updated update start (take i items)

  -- A place with its state.
  abbrev placed : List T → Bool × ℕ → Run (Bool × (ℕ × X))
  placed items r = done (r.0, (r.1, at_place items r.1))

  at_next :
      (items : List T) (i : ℕ) (t : T)
      → get_elem? items i ≡ some t
      → update t (at_place items i) ≡ at_place items (i + 1)
  at_next items i t h =
      let next : suc i ≡ i + 1 = omega arith in
      updated-take update start items i t h ∙ ap (at_place items) next

  -- Each loop stops where it does without a state, with the state of that place.
  check-updates :
      (n : ℕ) (items : List T) (i : ℕ)
      → check_with (updating f update) n items i (at_place items i)
        ≡ (check f n items i >>= placed items)
  unfolding check_with check updating
  check-updates zero items i = refl
  check-updates (suc n) items i = elim (item_cases f items i) [
    | inl (e, l, d) ↦ rw (e, check_with, check)
    | inr (t, e, l, d) ↦ elim (Bool-cases (f t)) [
      | inl passes ↦
          rw (e, passes, check_with, check, updating, at_next items i t e)
            (check-updates n items (i + 1))
      | inr fails ↦ rw (e, fails, check_with, check, updating)
    ]
  ]

  check_rest-updates :
      (fuel : ℕ) (items : List T) (i : ℕ)
      → check_rest_with (updating f update) fuel items i (at_place items i)
        ≡ (check_rest f fuel items i >>= λ j. done (j, at_place items j))
  unfolding check_rest_with check_rest updating
  check_rest-updates zero items i = refl
  check_rest-updates (suc fuel) items i = elim (item_cases f items i) [
    | inl (e, l, d) ↦ rw (e, check_rest_with, check_rest)
    | inr (t, e, l, d) ↦ elim (Bool-cases (f t)) [
      | inl passes ↦
          rw (e, passes, check_rest_with, check_rest, updating, at_next items i t e)
            (check_rest-updates fuel items (i + 1))
      | inr fails ↦ rw (e, fails, check_rest_with, check_rest, updating)
    ]
  ]

  check_blocks-updates :
      (fuel : ℕ) (items : List T) (i : ℕ)
      → check_blocks_with (updating f update) fuel items i (at_place items i)
        ≡ (check_blocks f fuel items i >>= placed items)
  unfolding check_blocks_with check_blocks
  check_blocks-updates zero items i = refl
  check_blocks-updates (suc fuel) items i = elim (Bool-cases (leb 8 (length items - i))) [
    | inr few ↦ rw (few, check_blocks_with, check_blocks)
    | inl many ↦
        rw (many, check_blocks_with, check_blocks, check-updates 8 items i)
          (blocks (check f 8 items i) (λ j. check_blocks-updates fuel items j))
  ]
    where
      blocks :
          (m : Run (Bool × ℕ))
          → ((j : ℕ)
              → check_blocks_with (updating f update) fuel items j (at_place items j)
                ≡ (check_blocks f fuel items j >>= placed items))
          → (m >>= placed items >>= λ y. elim y.0 [
            | true ↦ done (true, (y.1.0, y.1.1))
            | false ↦ check_blocks_with (updating f update) fuel items y.1.0 y.1.1
          ])
            ≡ (m
                >>= (λ r. elim r.0 [
                  | true ↦ done (true, r.1)
                  | false ↦ check_blocks f fuel items r.1
                ])
                >>= placed items)
      blocks (done (true, j)) rest = refl
      blocks (done (false, j)) rest = rest j
      blocks out_of_fuel rest = refl
      blocks panicked rest = refl

  -- Both loops.
  loops-updates :
      (fuel : ℕ) (items : List T)
      → (check_blocks_with (updating f update) fuel items 0 start >>= λ y.
          (if y.0 then done y.1 else check_rest_with (updating f update) fuel items y.1.0 y.1.1))
        ≡ (check_blocks f fuel items 0
            >>= (λ r. if r.0 then done r.1 else check_rest f fuel items r.1)
            >>= λ j. done (j, at_place items j))
  unfolding updated
  loops-updates fuel items =
      rw (check_blocks-updates fuel items 0) (rest (check_blocks f fuel items 0))
    where
      rest :
          (m : Run (Bool × ℕ))
          → (m >>= placed items >>= λ y.
              (if y.0
                then done y.1
                else check_rest_with (updating f update) fuel items y.1.0 y.1.1))
            ≡ (m >>= (λ r. if r.0 then done r.1 else check_rest f fuel items r.1) >>= λ j.
                done (j, at_place items j))
      rest (done (true, j)) = refl
      rest (done (false, j)) = check_rest-updates fuel items j
      rest out_of_fuel = refl
      rest panicked = refl

  -- With a predicate that updates a state for each item that passes, `slice_uncons_while`, with fuel above
  -- the length, splits the slice behind the longest prefix of items that pass, and leaves the state
  -- updated for each of them, in order.
  pub slice_uncons_while_with-updated :
      (size fuel : ℕ) (s : Slice T)
      → length s.items < fuel
      → slice_uncons_while_with (updating f update) size fuel s 0 start
        ≡ done (
          record { pointer = s.pointer; items = take_while f s.items },
          (
            record {
              pointer = s.pointer + length (take_while f s.items) * size;
              items = drop_while f s.items;
            },
            updated update start (take_while f s.items),
          ),
        )
  unfolding slice_uncons_while_with split_at
  slice_uncons_while_with-updated size fuel s enough =
      sym (bind_assoc (check_blocks_with (updating f update) fuel s.items 0 start) _ _)
      ∙ ap (λ m. m >>= (λ j. split_at size j.0 s >>= λ r. done (r.0, (r.1, j.1))))
          (loops-updates fuel s.items
            ∙ ap (λ m. m >>= λ j. done (j, at_place s.items j))
                (loops-passing f fuel s.items enough))
      ∙ rw (le→leb _ _ (passing-le f s.items), take-passing f s.items, drop-passing f s.items) refl

-- `uncons_while1` with such a predicate, which sees the first item before the loop.
module _ {T X : Type 0} (g : T → X → Bool × X) where
  unfoldable pub slice_uncons_while1_with :
      ℕ → ℕ → Slice T → X → Run (ParseResult (Slice T) UnexpectedParse × (Slice T × X))
  unfolding slice_uncons_while_with
  slice_uncons_while1_with size fuel s x = elim s.items [
    | [] ↦ done (peek_err (tracked unexpected), (s, x))
    | t ∷ _ ↦
        let found : Run (ParseResult (Slice T) UnexpectedParse × (Slice T × X)) = do
          (result, (rest, x')) ← slice_uncons_while_with g size fuel s 1 (g t x).1
          done (commit_ok result, (rest, x'))
        in if (g t x).0 then found else done (peek_err (tracked unexpected), (s, (g t x).1))
  ]
