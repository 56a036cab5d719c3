-- ===== src/Stream/Buffered/Window.antt =====
-- src/stream/buffered.rs: which tokens the stream can go back to, and that it gives them again.
use combine.Prelude.{
  ℕ, zero, suc, ◌+◌, ◌-◌, ◌≤◌, ◌<◌, ◌≡◌, sym, ap, ◌∙◌, List, [], ◌∷◌, ◌++◌, some, ok, done, ◌>>=◌,
  length, get_elem?, arith, length-append, le→leb, le→not-ltb, lt→not-leb,
}
use combine.Error.Traits.{ParseError}
use combine.Stream.Buffered.{Source, Buffered, window_start, current, replay, uncons, reset}

module _ {I T P : Type 0} where
  -- `history` is all that the stream has read from the stream inside, and the buffer is its end.
  pub record Holds (history : List (T × P)) (s : Buffered I T P) : Type 0 where
    pub dropped : List (T × P)
    pub split : history ≡ dropped ++ s.buffer
    pub counted : s.buffer_offset ≡ length history
    pub behind : s.offset ≤ s.buffer_offset
    pub bounded : length s.buffer ≤ s.capacity
    pub room : 0 < s.capacity

get_elem?-append_right :
    {A : Type 0} (xs ys : List A) (k : ℕ)
    → length xs ≤ k
    → get_elem? (xs ++ ys) k ≡ get_elem? ys (k - length xs)
get_elem?-append_right [] ys k h = ap (get_elem? ys) (omega arith)
get_elem?-append_right (x ∷ xs) ys zero h = absurd (omega arith)
get_elem?-append_right (x ∷ xs) ys (suc k) h =
    get_elem?-append_right xs ys k (omega arith) ∙ ap (get_elem? ys) (omega arith)

get_elem?-some :
    {A : Type 0} (xs : List A) (k : ℕ) (x : A) → get_elem? xs k ≡ some x → k < length xs
get_elem?-some [] k x h = cc
get_elem?-some (y ∷ xs) zero x h = omega arith
get_elem?-some (y ∷ xs) (suc k) x h = omega (arith, get_elem?-some xs k x h)

module _ {I T P : Type 0} (history : List (T × P)) (s : Buffered I T P)
    (holds : Holds history s) where
  pub lengths : length history ≡ length holds.dropped + length s.buffer
  lengths = ap length holds.split ∙ length-append holds.dropped s.buffer

  pub window_start-Holds : window_start s ≡ done (length history - length s.buffer)
  unfolding window_start
  window_start-Holds =
      rw (le→leb (length s.buffer) s.buffer_offset (omega (arith, lengths, holds.counted)))
        (ap (λ n. done (n - length s.buffer)) holds.counted)

  current-Holds :
      (item : T × P)
      → length history - length s.buffer ≤ s.offset
      → get_elem? history s.offset ≡ some item
      → current s ≡ some item
  unfolding current
  current-Holds item inside there =
      ap (get_elem? s.buffer)
        (omega (arith, lengths, holds.counted, inside, get_elem?-some history s.offset item there))
      ∙ sym
          (get_elem?-append_right holds.dropped s.buffer s.offset (omega (arith, lengths, inside)))
      ∙ ap (λ xs. get_elem? xs s.offset) (sym holds.split)
      ∙ there

module _ {I T R P SE E : Type 0} (pe : ParseError T R P SE E) (source : Source I T P SE) where
  -- A token that the buffer still holds is given again, and the stream inside is left alone.
  pub uncons-Holds :
      (history : List (T × P)) (s : Buffered I T P) (grow : ℕ → ℕ) (item : T × P)
      → Holds history s
      → length history - length s.buffer ≤ s.offset
      → get_elem? history s.offset ≡ some item
      → uncons pe source grow s ≡ done (ok item.0, record s { offset = s.offset + 1 })
  unfolding uncons replay
  uncons-Holds history s grow item holds inside there = rw (
    lt→not-leb s.offset s.buffer_offset
        (omega (arith, holds.counted, get_elem?-some history s.offset item there)),
    window_start-Holds history s holds,
    le→not-ltb (length history - length s.buffer) s.offset inside,
    current-Holds history s holds item inside there,
  )

  back : ℕ → Buffered I T P → Buffered I T P
  back k s = record s { offset = k }

  back-Holds :
      (history : List (T × P)) (s : Buffered I T P) (k : ℕ)
      → Holds history s
      → k ≤ length history
      → Holds history (back k s)
  unfolding back
  back-Holds history s k holds le = record {
    dropped = holds.dropped;
    split = holds.split;
    counted = holds.counted;
    behind = omega (arith, le, holds.counted);
    bounded = holds.bounded;
    room = holds.room;
  }

  reset-Holds :
      (history : List (T × P)) (s : Buffered I T P) (k : ℕ)
      → Holds history s
      → length history - length s.buffer ≤ k
      → reset pe source k s ≡ done (ok tt, back k s)
  unfolding reset back
  reset-Holds history s k holds inside =
      rw
        (window_start-Holds history s holds, le→not-ltb (length history - length s.buffer) k inside)

  -- A buffered stream whose buffer is the end of what it has read can go back to any checkpoint that
  -- the buffer reaches, and then gives the token that it gave there, without reading on.
  pub reset-replays :
      (history : List (T × P)) (s : Buffered I T P) (grow : ℕ → ℕ) (k : ℕ) (item : T × P)
      → Holds history s
      → length history - length s.buffer ≤ k
      → get_elem? history k ≡ some item
      → (reset pe source k s >>= λ x. uncons pe source grow x.1)
        ≡ done (ok item.0, record s { offset = k + 1 })
  unfolding back
  reset-replays history s grow k item holds inside there =
      rw (reset-Holds history s k holds inside) (
        uncons-Holds history (back k s) grow item
          (back-Holds history s k holds (omega (arith, get_elem?-some history k item there))) inside
          there)
