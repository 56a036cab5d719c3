-- ===== src/Stream/Buffered.antt =====
-- src/stream/buffered.rs: a stream that keeps the last tokens that it read, so that it can go back
-- to them. The stream inside is `StreamOnce` and `Positioned`: its `uncons` and its `position`.
pub mod Window
pub mod Invariant
use combine.Prelude.{
  ℕ, ◌+◌, ◌-◌, String, List, [], ◌∷◌, ◌++◌, Option, some, none, Result, ok, err, Run, done,
  panicked, ◌>>=◌, length, get_elem?, drop, leb, ltb, ◌==◌, if◌then◌else◌,
}
use combine.Error.Traits.{ParseError}

-- What the stream inside gives.
pub record Source (I T P SE : Type 0) : Type 0 where
  pub uncons : I → Result T SE × I
  pub position : I → P

-- `Stream<Input>`; `capacity` is that of the `VecDeque`.
pub record Buffered (I T P : Type 0) : Type 0 where
  pub offset : ℕ
  pub iter : I
  pub buffer_offset : ℕ
  pub buffer : List (T × P)
  pub capacity : ℕ

module _ {I T P : Type 0} where
  -- `Stream::new`: the capacity that `with_capacity(lookahead)` gives.
  unfoldable pub new : I → ℕ → Buffered I T P
  new iter capacity = record {
    offset = 0;
    iter = iter;
    buffer_offset = 0;
    buffer = [];
    capacity = capacity;
  }

  -- `push_back`; `grow` is the capacity that a full `VecDeque` takes to hold one more item.
  unfoldable pub push_back : (ℕ → ℕ) → T × P → Buffered I T P → Buffered I T P
  push_back grow item s = record s {
    buffer = s.buffer ++ item ∷ [];
    capacity = if leb s.capacity (length s.buffer) then grow s.capacity else s.capacity;
  }

  -- `self.buffer_offset - self.buffer.len()`, which panics below 0.
  unfoldable pub window_start : Buffered I T P → Run ℕ
  window_start s =
      if leb (length s.buffer) s.buffer_offset
      then done (s.buffer_offset - length s.buffer)
      else panicked

  -- The item of the buffer at the stream's offset; an index out of bounds panics.
  unfoldable pub current : Buffered I T P → Option (T × P)
  current s = get_elem? s.buffer (length s.buffer - (s.buffer_offset - s.offset))

module _ {I T R P SE E : Type 0} (pe : ParseError T R P SE E) (source : Source I T P SE) where
  abbrev pub too_far : SE
  too_far = pe.stream_error.message_static_message "Backtracked to far"

  -- A token of the stream inside goes into the buffer, whose first item is dropped if it is full.
  unfoldable pub keep :
      (ℕ → ℕ) → P → Buffered I T P → Result T SE × I → Result T SE × Buffered I T P
  unfolding push_back
  keep grow position s (err e, iter) = (err e, record s { iter = iter })
  keep grow position s (ok token, iter) =
      let kept = if length s.buffer == s.capacity then drop 1 s.buffer else s.buffer in
      let s₁ = record s { iter = iter; buffer_offset = s.buffer_offset + 1; buffer = kept } in
      let s₂ = push_back grow (token, position) s₁ in
      (ok token, record s₂ { offset = s.offset + 1 })

  unfoldable pub replay : Buffered I T P → Option (T × P) → Run (Result T SE × Buffered I T P)
  replay s none = panicked
  replay s (some item) = done (ok item.0, record s { offset = s.offset + 1 })

  unfoldable pub uncons : (ℕ → ℕ) → Buffered I T P → Run (Result T SE × Buffered I T P)
  unfolding keep window_start replay current
  uncons grow s =
      let buffered : Run (Result T SE × Buffered I T P) = do
        start ← window_start s
        if ltb s.offset start then done (err too_far, s) else replay s (current s)
      in if leb s.buffer_offset s.offset
        then done (keep grow (source.position s.iter) s (source.uncons s.iter))
        else buffered

  abbrev position_of : Option (T × P) → Run P
  position_of none = panicked
  position_of (some item) = done item.1

  unfoldable pub position : Buffered I T P → Run P
  unfolding window_start current
  position s =
      let buffered : Run P = do
        start ← window_start s
        if ltb s.offset start then position_of (get_elem? s.buffer 0) else position_of (current s)
      in if leb s.buffer_offset s.offset then done (source.position s.iter) else buffered

  -- `reset` to a checkpoint, which is an offset.
  unfoldable pub reset : ℕ → Buffered I T P → Run (Result (Unit {0}) E × Buffered I T P)
  unfolding window_start position
  reset checkpoint s = do
    start ← window_start s
    let refuse : Run (Result (Unit {0}) E × Buffered I T P) = do
      p ← position s
      done (err (pe.from_error p too_far), s)
    if ltb checkpoint start then refuse else done (ok tt, record s { offset = checkpoint })
