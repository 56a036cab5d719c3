-- ===== src/Stream/BufReader/Awaited/Contract.antt =====
-- src/stream/buf_reader.rs: the buffers over readers that are polled do what a decoder relies on.
use combine.Prelude.{
  ℕ, zero, suc, ◌≤◌, ◌<◌, ◌≡◌, refl, sym, ap, ◌∙◌, true, List, [], ◌∷◌, ◌++◌, length, le→leb,
  Result, ok, err, Run, done, Returns, Returns-bind, arith,
}
use combine.Stream.Bytes.{BytesMut, IsBytesMut}
use combine.Stream.BufReader.{CombineBuffer}
use combine.Stream.BufReader.{make_room}
use combine.Stream.BufReader.Contract.{
  IsLawful, Extends, contents-make_room, has_remaining_mut-make_room,
}
use combine.Stream.BufReader.Awaited.{
  Poll, ready, pending, AsyncRead, await, poll_written, poll_extend_buf, extend_async, awaited,
}

-- What the docs of a reader that is polled say: it gives the next bytes, at most as many as fit, and
-- takes none where it fails or has none yet. It has none yet at most `delay` times in a row.
pub record IsAsyncSource {B : BytesMut} {E : Type 0} (R : AsyncRead B E) (unread : R.Self → List ℕ)
    (delay : R.Self → ℕ) : Type 0 where
  pub given :
      (n : ℕ) (r r' : R.Self) (xs : List ℕ)
      → R.poll_read n r ≡ (ready (ok xs), r')
      → (unread r ≡ xs ++ unread r') × (length xs ≤ n)
  pub failed :
      (n : ℕ) (r r' : R.Self) (e : E) → R.poll_read n r ≡ (ready (err e), r') → unread r' ≡ unread r
  pub waits :
      (n : ℕ) (r r' : R.Self)
      → R.poll_read n r ≡ (pending, r')
      → (unread r' ≡ unread r) × (delay r' < delay r)
  pub ended :
      (n : ℕ) (r r' : R.Self) → 0 < n → R.poll_read n r ≡ (ready (ok []), r') → unread r ≡ []

-- The buffer, where each read is polled often enough.
abbrev pub polled_buffer :
    {B : BytesMut} {E : Type 0} (R : AsyncRead B E) → (R.Self → ℕ) → CombineBuffer B E
polled_buffer {B} R delay = awaited B R (λ b r. extend_async B R (suc (delay r)) b r)

-- A poll of `s` that gives a good result, or can be made again with less to wait for.
abbrev Polls : {S A : Type 0} → (S → ℕ) → (S → Type 0) → (A → S → Type 0) → S → Poll A × S → Type 0
Polls delay Again Good s (ready a, s') = Good a s'
Polls delay Again Good s (pending, s') = Again s' × (delay s' < delay s)

-- What is awaited gives a good result.
await-Returns :
    {S A : Type 0} (delay : S → ℕ) (Again : S → Type 0) (Good : A → S → Type 0)
    (poll : S → Run (Poll A × S))
    → ((s : S) → Again s → Returns (Polls delay Again Good s) (poll s))
    → (fuel : ℕ) (s : S) → Again s
    → delay s < fuel
    → Returns (λ x. Good x.0 x.1) (await fuel poll s)
unfolding await
await-Returns delay Again Good poll good zero s again enough = absurd (omega (arith, enough))
await-Returns {S} {A} delay Again Good poll good (suc fuel) s again enough =
    Returns-bind (Polls delay Again Good s) (λ x. Good x.0 x.1) (poll s) _ (good s again)
      (next λ s' h less.
        await-Returns delay Again Good poll good fuel s' h (omega (arith, less, enough)))
  where
    next :
        ((s' : S)
          → Again s'
          → delay s' < delay s
          → Returns (λ (y : A × S). Good y.0 y.1) (await fuel poll s'))
        → (x : Poll A × S) → Polls delay Again Good s x
        → Returns
            (λ (y : A × S). Good y.0 y.1)
            (elim x.0 [ ready a ↦ done (a, x.1) | pending ↦ await fuel poll x.1 ])
    next later (ready a, s') h = h
    next later (pending, s') (h, less) = later s' h less

module _ {B : BytesMut} {E : Type 0} {R : AsyncRead B E} {unread : R.Self → List ℕ}
    {delay : R.Self → ℕ} (lawful : IsBytesMut B) (source : IsAsyncSource R unread delay) where
  -- Nothing was read so far, and there is room.
  abbrev Unchanged : B.Self → R.Self → B.Self × R.Self → Type 0
  Unchanged b r (b', r') =
      (B.contents b' ≡ B.contents b) × (unread r' ≡ unread r) × (B.has_remaining_mut b' ≡ true)

  abbrev Added : B.Self → R.Self → Result ℕ E → B.Self × R.Self → Type 0
  Added b r x (b', r') = Extends (polled_buffer R delay) unread b r (x, b', r')

  poll_written-Added :
      (b : B.Self) (r : R.Self) (b' : B.Self) (r' : R.Self) (x : Poll (Result (List ℕ) E) × R.Self)
      → Unchanged b r (b', r')
      → R.poll_read (B.bytes_mut b').0 r' ≡ x
      → Returns
          (Polls (λ t. delay t.1) (Unchanged b r) (Added b r) (b', r'))
          (poll_written B R (B.bytes_mut b').0 (B.bytes_mut b').1 x)
  unfolding poll_written
  poll_written-Added b r b' r' (pending, s) (kept, same, room) h =
      let (still, less) = source.waits (B.bytes_mut b').0 r' s h in
      (
        (
          lawful.contents-bytes_mut b' ∙ kept,
          still ∙ same,
          lawful.has_remaining_mut-bytes_mut b' ∙ room,
        ),
        less,
      )
  poll_written-Added b r b' r' (ready (err e), s) (kept, same, room) h =
      (lawful.contents-bytes_mut b' ∙ kept, source.failed (B.bytes_mut b').0 r' s e h ∙ same)
  poll_written-Added b r b' r' (ready (ok xs), s) (kept, same, room) h =
      let (split, fits) = source.given (B.bytes_mut b').0 r' s xs h in
      rw (le→leb (length xs) (B.bytes_mut b').0 fits) (
        xs,
        refl,
        lawful.contents-advance_mut xs b' fits ∙ ap (λ ys. ys ++ xs) kept,
        sym same ∙ split,
        λ none_given. sym same ∙ ended xs (lawful.bytes_mut_pos b' room) none_given h,
      )
    where
      ended :
          (xs : List ℕ)
          → 0 < (B.bytes_mut b').0
          → length xs ≡ 0
          → R.poll_read (B.bytes_mut b').0 r' ≡ (ready (ok xs), s)
          → unread r' ≡ []
      ended [] pos none_given h = source.ended (B.bytes_mut b').0 r' s pos h
      ended (x ∷ xs) pos none_given h = absurd (omega (arith, none_given))

  extend_async-Extends :
      (b : B.Self) (r : R.Self)
      → Returns (Extends (polled_buffer R delay) unread b r) (extend_async B R (suc (delay r)) b r)
  unfolding extend_async poll_extend_buf
  extend_async-Extends b r =
      Returns-bind (λ x. Added b r x.0 x.1) (Extends (polled_buffer R delay) unread b r)
        (await (suc (delay r)) (poll_extend_buf B R) ((B.bytes_mut (make_room B b)).1, r))
        (λ x. done (x.0, x.1.0, x.1.1))
        (await-Returns (λ s. delay s.1) (Unchanged b r) (Added b r) (poll_extend_buf B R)
          (λ s again. poll_written-Added b r s.0 s.1 _ again refl) (suc (delay r))
          ((B.bytes_mut (make_room B b)).1, r)
          (
            lawful.contents-bytes_mut (make_room B b) ∙ contents-make_room lawful b,
            refl,
            lawful.has_remaining_mut-bytes_mut (make_room B b)
                ∙ has_remaining_mut-make_room lawful b,
          )
          (omega arith))
        extended
    where
      extended :
          (x : Result ℕ E × (B.Self × R.Self))
          → Added b r x.0 x.1
          → Extends (polled_buffer R delay) unread b r (x.0, x.1.0, x.1.1)
      extended (ok n, s) h = h
      extended (err e, s) h = h

  -- Over a reader that gives its bytes in order, and has none yet only so often, a read that is polled
  -- often enough ends without a panic, with what it read behind the contents of the buffer: it counts
  -- nothing only at the end, and where it waits or fails no byte is lost.
  pub awaited-IsLawful : IsLawful (polled_buffer R delay) unread
  awaited-IsLawful = record {
    advance_lem = λ n b r fits.
        let (b', ran, dropped) = lawful.contents-advance n b fits in
        (b', r, rw ran refl, dropped, refl);
    extend_lem = extend_async-Extends;
  }
