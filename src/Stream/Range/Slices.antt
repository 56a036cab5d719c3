-- ===== src/Stream/Range/Slices.antt =====
-- src/stream/mod.rs: slices as range streams, `&[T]` and `SliceStream`.
use combine.Error.Unexpected.{UnexpectedParse, eoi}
use combine.Prelude.{
  ◌+◌, ◌*◌, false, Result, take, drop, length-drop, leb→le, le→leb, done-injective, ap, ℕ, suc, ◌≤◌,
  ◌-◌, ◌≡◌, refl, ok, err, Run, done, ◌>>=◌, length, arith, leb, Bool-cases, inl, inr, sym, ◌∙◌,
}
use combine.Stream.Slice.{
  Slice, slice_stream, uncons_range, distance, slice_uncons_while, slice_uncons_while1, split_at,
}
use combine.Stream.Range.{RangeStream, IsLawful}

-- `&[T]`; the fuel is above the length of the slice.
abbrev pub slices : Type 0 → ℕ → RangeStream
slices T size = record {
  stream = slice_stream T size;
  uncons_range = uncons_range size;
  uncons_while = λ f s. do
    (result, rest) ← slice_uncons_while f size (suc (length s.items)) s 0
    done (ok result, rest);
  uncons_while1 = λ f s. slice_uncons_while1 f size (suc (length s.items)) s;
  distance = distance size;
  range = λ s. s;
  len = λ s. length s.items;
}

-- `SliceStream`, the same on references to the items: its loop `slice_uncons_while_ref` is that of
-- `slice_uncons_while`, and a reference to an item is the item.
abbrev pub slice_refs : Type 0 → ℕ → RangeStream
slice_refs T size = slices T size

module _ {T : Type 0} (size : ℕ) where
  -- A range that fits is split off.
  pub uncons_range-fits :
      (n : ℕ) (s : Slice T)
      → n ≤ length s.items
      → uncons_range size n s
        ≡ done (
          ok (record { pointer = s.pointer; items = take n s.items }),
          record { pointer = s.pointer + n * size; items = drop n s.items },
        )
  unfolding uncons_range split_at
  uncons_range-fits n s h = rw (le→leb n (length s.items) h)

  uncons_range-short :
      (n : ℕ) (s : Slice T)
      → leb n (length s.items) ≡ false
      → uncons_range size n s ≡ done (err eoi, s)
  unfolding uncons_range
  uncons_range-short n s h = rw h

  pub distance_lem :
      (s' s : Slice T)
      → length s'.items ≤ length s.items
      → distance size s' s ≡ done (length s.items - length s'.items)
  unfolding distance
  distance_lem s' s h = rw (le→leb (length s'.items) (length s.items) h)

  distance_after :
      (n : ℕ) (s s' : Slice T) (x : Slice T)
      → uncons_range size n s ≡ done (ok x, s')
      → distance size s' s ≡ done n
  distance_after n s s' x ran = elim (Bool-cases (leb n (length s.items))) [
    | inl fits ↦
        let le : n ≤ length s.items = leb→le n (length s.items) fits in
        let same : s' ≡ record { pointer = s.pointer + n * size; items = drop n s.items } =
          ap (λ r. r.1) (done-injective (sym ran ∙ uncons_range-fits n s le)) in
        let shorter : length s'.items ≡ length s.items - n =
          ap (λ r. length r.items) same ∙ length-drop n s.items in
        distance_lem s' s (omega (arith, shorter)) ∙ ap done (omega (arith, shorter, le))
    | inr short ↦ absurd (refused (sym ran ∙ uncons_range-short n s short))
  ]
    where
      refused :
          {s'' : Slice T}
          → ◌≡◌ {A = Run (Result (Slice T) UnexpectedParse × Slice T)}
              (done (ok x, s''))
              (done (err eoi, s))
          → ⊥
      refused h = cc

  -- Slices go back to their checkpoints, and measure the ranges taken.
  pub slices-IsLawful : IsLawful (slices T size)
  slices-IsLawful = record { resettable = λ before now. refl; distance_lem = distance_after }
