-- ===== src/Stream/BufReader/Contract.antt =====
-- src/stream/buf_reader.rs: what a decoder relies on in its buffer, and that both buffers do it.
use combine.Prelude.{
  ℕ, ◌≤◌, ◌<◌, ◌≡◌, refl, ◌∙◌, ap, Bool-cases, inl, inr, List, [], ◌∷◌, ◌++◌, true, length, drop,
  le→leb, Result, ok, err, done, Returns, Returns-map, Returns-bind, arith,
}
use combine.Stream.Bytes.{BytesMut, IsBytesMut, Read, IsSource, NeverFails}
use combine.Stream.BufReader.{
  BufReader, CombineBuffer, make_room, written, extend_buf_sync, internal, bufferless,
  bufferless_extend,
}

module _ {B : BytesMut} {E : Type 0} (C : CombineBuffer B E) (unread : C.Reader → List ℕ) where
  abbrev pub buffered : C.Self → C.Reader → List ℕ
  buffered c r = B.contents (C.buffer c r)

  -- What was read is put behind the contents, and is counted; no byte is lost, and none is read only
  -- at the end.
  abbrev pub Extends : C.Self → C.Reader → Result ℕ E × C.Self × C.Reader → Type 0
  Extends c r (ok n, c', r') =
      (xs : List ℕ) × (n ≡ length xs)
      × (buffered c' r' ≡ buffered c r ++ xs)
      × (unread r ≡ xs ++ unread r')
      × (n ≡ 0 → unread r ≡ [])
  Extends c r (err e, c', r') = (buffered c' r' ≡ buffered c r) × (unread r' ≡ unread r)

-- The contract of `CombineBuffer`; `unread` are the bytes that the reader has yet to give.
pub record IsLawful {B : BytesMut} {E : Type 0} (C : CombineBuffer B E) (unread : C.Reader → List ℕ)
    : Type 0 where
  pub advance_lem :
      (n : ℕ) (c : C.Self) (r : C.Reader)
      → n ≤ length (buffered C unread c r)
      → (c' : C.Self) × (r' : C.Reader) × (C.advance n c r ≡ done (c', r'))
        × (buffered C unread c' r' ≡ drop n (buffered C unread c r))
        × (unread r' ≡ unread r)
  pub extend_lem : (c : C.Self) (r : C.Reader) → Returns (Extends C unread c r) (C.extend_buf c r)

module _ {B : BytesMut} (lawful : IsBytesMut B) where
  pub contents-make_room : (b : B.Self) → B.contents (make_room B b) ≡ B.contents b
  unfolding make_room
  contents-make_room b = elim (Bool-cases (B.has_remaining_mut b)) [
    | inl room ↦ rw room
    | inr full ↦ rw full (lawful.contents-reserve 8192 b)
  ]

  pub has_remaining_mut-make_room : (b : B.Self) → B.has_remaining_mut (make_room B b) ≡ true
  unfolding make_room
  has_remaining_mut-make_room b = elim (Bool-cases (B.has_remaining_mut b)) [
    | inl room ↦ rw room room
    | inr full ↦ rw full (lawful.has_remaining_mut-reserve 8192 b (omega arith))
  ]

module _ {B : BytesMut} {E : Type 0} {R : Read E} {unread : R.Self → List ℕ} (lawful : IsBytesMut B)
    (source : IsSource R unread) where
  ended :
      {room : ℕ} {r : R.Self} (xs : List ℕ) (r' : R.Self)
      → 0 < room
      → length xs ≡ 0
      → R.read room r ≡ (ok xs, r')
      → unread r ≡ []
  ended {room} {r} [] r' pos none_given h = source.ended room r r' pos h
  ended (x ∷ xs) r' pos none_given h = absurd (omega (arith, none_given))

  written-Extends :
      (b : B.Self) (r : R.Self) (x : Result (List ℕ) E × R.Self)
      → 0 < (B.bytes_mut b).0
      → R.read (B.bytes_mut b).0 r ≡ x
      → Returns
          (Extends (internal B R) unread b r)
          (written B R (B.bytes_mut b).0 (B.bytes_mut b).1 x)
  unfolding written
  written-Extends b r (err e, r') pos h =
      (lawful.contents-bytes_mut b, source.failed (B.bytes_mut b).0 r r' e h)
  written-Extends b r (ok xs, r') pos h =
      let (split, fits) = source.given (B.bytes_mut b).0 r r' xs h in
      rw (le→leb (length xs) (B.bytes_mut b).0 fits) (
        xs,
        refl,
        lawful.contents-advance_mut xs b fits,
        split,
        λ none_given. ended xs r' pos none_given h,
      )

  Extends-make_room :
      (b : B.Self) (r : R.Self) (x : Result ℕ E × B.Self × R.Self)
      → Extends (internal B R) unread (make_room B b) r x
      → Extends (internal B R) unread b r x
  Extends-make_room b r (ok n, b', r') (xs, counted, kept, split, ends) =
      (xs, counted, kept ∙ ap (λ ys. ys ++ xs) (contents-make_room lawful b), split, ends)
  Extends-make_room b r (err e, b', r') (kept, same) = (kept ∙ contents-make_room lawful b, same)

  extend_buf_sync-Extends :
      (b : B.Self) (r : R.Self)
      → Returns (Extends (internal B R) unread b r) (extend_buf_sync B R b r)
  unfolding extend_buf_sync
  extend_buf_sync-Extends b r =
      Returns-map (Extends (internal B R) unread (make_room B b) r)
        (Extends (internal B R) unread b r) (extend_buf_sync B R b r) (Extends-make_room b r)
        (written-Extends (make_room B b) r (R.read (B.bytes_mut (make_room B b)).0 r)
          (lawful.bytes_mut_pos (make_room B b) (has_remaining_mut-make_room lawful b)) refl)

  pub internal-IsLawful : IsLawful (internal B R) unread
  internal-IsLawful = record {
    advance_lem = λ n b r fits.
        let (b', ran, dropped) = lawful.contents-advance n b fits in
        (b', r, rw ran refl, dropped, refl);
    extend_lem = extend_buf_sync-Extends;
  }

  Extends-inner :
      (r : BufReader B.Self R.Self) (x : Result ℕ E × B.Self × R.Self)
      → Extends (internal B R) unread r.buf r.inner x
      → Extends
          (bufferless B R)
          (λ s. unread s.inner)
          tt
          r
          (x.0, tt, record { inner = x.2; buf = x.1 })
  Extends-inner r (ok n, b', r') h = h
  Extends-inner r (err e, b', r') h = h

  -- Over a reader that gives its bytes in order, `advance` removes bytes from the front, and a read
  -- ends without a panic, with what it read behind the contents: it counts nothing only at the end, and
  -- where the reader fails no byte changes.
  pub bufferless-IsLawful : IsLawful (bufferless B R) (λ r. unread r.inner)
  unfolding bufferless_extend
  bufferless-IsLawful = record {
    advance_lem = λ n c r fits.
        let (b', ran, dropped) = lawful.contents-advance n r.buf fits in
        (tt, record r { buf = b' }, rw ran refl, dropped, refl);
    extend_lem = λ c r.
        Returns-bind (Extends (internal B R) unread r.buf r.inner)
          (Extends (bufferless B R) (λ s. unread s.inner) tt r) (extend_buf_sync B R r.buf r.inner)
          (λ x. done (x.0, tt, record { inner = x.2; buf = x.1 }))
          (extend_buf_sync-Extends r.buf r.inner) (Extends-inner r);
  }

-- A read gives bytes: it neither fails nor panics.
abbrev pub AlwaysReads : {B : BytesMut} {E : Type 0} → CombineBuffer B E → Type 0
AlwaysReads C =
    (c : C.Self) (r : C.Reader)
    → (n : ℕ) × (c' : C.Self) × (r' : C.Reader) × (C.extend_buf c r ≡ done (ok n, c', r'))

module _ (B : BytesMut) {E : Type 0} {R : Read E} {unread : R.Self → List ℕ}
    (source : IsSource R unread) (never : NeverFails R) where
  extend_buf_sync-reads :
      (b : B.Self) (r : R.Self)
      → (n : ℕ) × (b' : B.Self) × (r' : R.Self) × (extend_buf_sync B R b r ≡ done (ok n, b', r'))
  unfolding extend_buf_sync written
  extend_buf_sync-reads b r =
      let (room, b') = B.bytes_mut (make_room B b) in
      let (xs, r', ran) = never room r in
      let (split, fits) = source.given room r r' xs ran in
      (length xs, B.advance_mut xs b', r', rw (ran, le→leb (length xs) room fits) refl)

  pub internal-AlwaysReads : AlwaysReads (internal B R)
  internal-AlwaysReads = extend_buf_sync-reads

  pub bufferless-AlwaysReads : AlwaysReads (bufferless B R)
  unfolding bufferless_extend
  bufferless-AlwaysReads c r =
      let (n, b', r', ran) = extend_buf_sync-reads r.buf r.inner in
      (n, tt, record { inner = r'; buf = b' }, rw ran refl)
