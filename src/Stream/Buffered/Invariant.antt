-- ===== src/Stream/Buffered/Invariant.antt =====
-- src/stream/buffered.rs: the buffer stays the end of what the stream has read.
use combine.Prelude.{
  ℕ, zero, suc, ◌+◌, ◌-◌, ◌≤◌, ◌<◌, ◌≡◌, refl, sym, ap, subst, ◌∙◌, List, [], ◌∷◌, ◌++◌, some,
  Result, ok, err, Run, done, length, get_elem?, take, drop, leb, ltb, ◌==◌, ==_iff, arith,
  if◌then◌else◌, append_assoc, append-nil, length-append, length-drop, take-append-drop, lt→not-leb,
  Bool-cases, inl, inr,
}
use combine.Error.Traits.{ParseError}
use combine.Stream.Buffered.{Source, Buffered, new, keep, push_back, uncons, too_far}
use combine.Stream.Buffered.Window.{Holds, window_start-Holds, uncons-Holds}

-- Full or not, what is kept of the buffer leaves room for an item.
kept-room :
    {A : Type 0} (buffer : List A) (capacity : ℕ)
    → length buffer ≤ capacity
    → 0 < capacity
    → let kept = if length buffer == capacity then drop 1 buffer else buffer in
      ((gone : List A) × (buffer ≡ gone ++ kept)) × (length kept < capacity)
kept-room buffer capacity bounded room = elim (Bool-cases (length buffer == capacity)) [
  | inl full ↦ rw full (
    (take 1 buffer, sym (take-append-drop 1 buffer)),
    omega (arith, (==_iff (length buffer) capacity).0 full, length-drop 1 buffer),
  )
  | inr free ↦ rw free (([], refl), ground (arith, free, bounded))
]

get_elem?-lt :
    {A : Type 0} (xs : List A) (k : ℕ) → k < length xs → (x : A) × (get_elem? xs k ≡ some x)
get_elem?-lt [] k h = absurd (omega arith)
get_elem?-lt (x ∷ xs) zero h = (x, refl)
get_elem?-lt (x ∷ xs) (suc k) h = get_elem?-lt xs k (omega arith)

module _ {I T P : Type 0} where
  -- A fresh stream has read nothing.
  new-Holds :
      (iter : I) (capacity : ℕ)
      → 0 < capacity
      → Holds {I = I} {T = T} {P = P} [] (new iter capacity)
  unfolding new
  new-Holds iter capacity h = record {
    dropped = [];
    split = refl;
    counted = refl;
    behind = omega arith;
    bounded = omega arith;
    room = h;
  }

  -- The stream once `item` is pushed behind `kept`.
  pushed : (ℕ → ℕ) → I → T × P → List (T × P) → Buffered I T P → Buffered I T P
  unfolding push_back
  pushed grow iter item kept s =
      let s₁ =
        push_back grow item
          (record s { iter = iter; buffer_offset = s.buffer_offset + 1; buffer = kept }) in
      record s₁ { offset = s.offset + 1 }

  pushed-Holds :
      (history gone kept : List (T × P)) (s : Buffered I T P) (grow : ℕ → ℕ) (iter : I)
      (item : T × P)
      → Holds history s
      → s.buffer ≡ gone ++ kept
      → length kept < s.capacity
      → Holds (history ++ item ∷ []) (pushed grow iter item kept s)
  unfolding pushed push_back
  pushed-Holds history gone kept s grow iter item holds same small = record {
    dropped = holds.dropped ++ gone;
    split =
        ap (λ xs. xs ++ item ∷ []) (holds.split ∙ ap (λ xs. holds.dropped ++ xs) same)
        ∙ ap (λ xs. xs ++ item ∷ []) (sym (append_assoc holds.dropped gone kept))
        ∙ append_assoc (holds.dropped ++ gone) kept (item ∷ []);
    counted = omega (arith, holds.counted, length-append history (item ∷ []));
    behind = omega (arith, holds.behind);
    bounded =
        rw (lt→not-leb (length kept) s.capacity small)
          (omega (arith, small, length-append kept (item ∷ [])));
    room = rw (lt→not-leb (length kept) s.capacity small) holds.room;
  }

module _ {I T R P SE E : Type 0} (pe : ParseError T R P SE E) (source : Source I T P SE) where
  -- What a call of `uncons` comes to: a result, and a stream whose buffer is the end of what it had
  -- read and of the item, if any, that it reads now.
  abbrev pub Reads : List (T × P) → Buffered I T P → Run (Result T SE × Buffered I T P) → Type 0
  Reads history s m =
      (r : Result T SE) × (s' : Buffered I T P) × (new : List (T × P)) × (m ≡ done (r, s'))
      × (length new ≤ 1)
      × Holds (history ++ new) s'

  stay :
      (history : List (T × P)) (s : Buffered I T P) (iter : I) (offset : ℕ)
      → Holds history s
      → offset ≤ s.buffer_offset
      → Holds (history ++ []) (record s { iter = iter; offset = offset })
  stay history s iter offset holds le =
      subst (λ h. Holds h (record s { iter = iter; offset = offset })) (sym (append-nil history))
        (record {
          dropped = holds.dropped;
          split = holds.split;
          counted = holds.counted;
          behind = le;
          bounded = holds.bounded;
          room = holds.room;
        })

  keep-Reads :
      (history : List (T × P)) (s : Buffered I T P) (grow : ℕ → ℕ) (position : P)
      → (read : Result T SE × I) → Holds history s
      → Reads history s (done (keep pe source grow position s read))
  unfolding keep
  keep-Reads history s grow position (ok token, iter) holds =
      let ((gone, same), small) = kept-room s.buffer s.capacity holds.bounded holds.room in
      (
        ok token,
        _,
        (token, position) ∷ [],
        refl,
        omega arith,
        unfold pushed in pushed-Holds history gone _ s grow iter (token, position) holds same small,
      )
  keep-Reads history s grow position (err e, iter) holds = (
    err e,
    record s { iter = iter },
    [],
    refl,
    omega arith,
    stay history s iter s.offset holds holds.behind,
  )

  -- `uncons` never panics on a stream whose buffer is the end of what it has read, and leaves such a
  -- stream, whether it reads on, gives a token again, or finds that it has gone back too far.
  pub uncons-Reads :
      (history : List (T × P)) (s : Buffered I T P) (grow : ℕ → ℕ)
      → Holds history s
      → Reads history s (uncons pe source grow s)
  unfolding uncons
  uncons-Reads history s grow holds = elim (Bool-cases (leb s.buffer_offset s.offset)) [
    | inl at_end ↦
        rw at_end (keep-Reads history s grow (source.position s.iter) (source.uncons s.iter) holds)
    | inr before ↦ elim (Bool-cases (ltb s.offset (length history - length s.buffer))) [
      | inl far ↦ (
        err (too_far pe source),
        s,
        [],
        rw (before, window_start-Holds history s holds, far),
        omega arith,
        stay history s s.iter s.offset holds holds.behind,
      )
      | inr near ↦
          let less : s.offset < length history = ground (arith, before, holds.counted) in
          let (item, there) = get_elem?-lt history s.offset less in
          (
            ok item.0,
            record s { offset = s.offset + 1 },
            [],
            uncons-Holds pe source history s grow item holds (ground (arith, near)) there,
            omega arith,
            stay history s s.iter (s.offset + 1) holds (omega (arith, less, holds.counted)),
          )
    ]
  ]
