-- ===== src/Stream/BufReader/Blocking.antt =====
-- src/stream/buf_reader.rs: `BufReader` as a `Read` and a `BufRead` of its own.
use combine.Prelude.{
  ℕ, zero, suc, ◌≤◌, ◌<◌, ◌≡◌, refl, sym, ap, ◌∙◌, Bool, false, not, ◌&&◌, List, [], ◌∷◌, ◌++◌,
  Result, ok, err, Run, done, out_of_fuel, ◌>>=◌, length, take, drop, leb, ◌==◌, if◌then◌else◌,
  arith, append_assoc, Bool-cases, inl, inr, length-append, length-take-le, length-take-le_length,
  take-drop_taken, none-taken, Returns, Returns-bind, ==_iff,
}
use combine.Stream.Bytes.{BytesMut, IsBytesMut, Read, IsSource}
use combine.Stream.BufReader.{BufReader, bufferless, bufferless_extend}
use combine.Stream.BufReader.Contract.{Extends, bufferless-IsLawful}

module _ (B : BytesMut) {E : Type 0} (R : Read E) where
  abbrev pub Self : Type 0
  Self = BufReader B.Self R.Self

  -- `fill_buf`: the contents, which are read where there are none.
  filled : Result ℕ E × Unit {0} × Self → Result (List ℕ) E × Self
  filled (ok _, _, r) = (ok (B.contents r.buf), r)
  filled (err e, _, r) = (err e, r)

  unfoldable pub fill_buf : Self → Run (Result (List ℕ) E × Self)
  unfolding filled bufferless_extend
  fill_buf r =
      let read : Run (Result (List ℕ) E × Self) = do x ← bufferless_extend B R r; done (filled x)
      in if length (B.contents r.buf) == 0 then read else done (ok (B.contents r.buf), r)

  unfoldable pub consume : ℕ → Self → Run Self
  consume amt r = do b ← B.advance amt r.buf; done (record r { buf = b })

  -- `rem.read(buf)` copies what fits from the contents, which are then consumed.
  copied : ℕ → Result (List ℕ) E × Self → Run (Result (List ℕ) E × Self)
  unfolding consume
  copied len (err e, r) = done (err e, r)
  copied len (ok rem, r) = do r' ← consume (length (take len rem)) r; done (ok (take len rem), r')

  -- The test for a read that is to pass the buffer by.
  abbrev pub bypasses : ℕ → Self → Bool
  bypasses len r = not (B.has_remaining_mut r.buf) && leb (length (B.contents r.buf)) len

  cleared : Result (List ℕ) E × Self → Result (List ℕ) E × Self
  cleared (x, r) = (x, record r { buf = B.clear r.buf })

  -- `read` into `len` bytes; in the first branch it calls itself.
  unfoldable pub read : ℕ → ℕ → Self → Run (Result (List ℕ) E × Self)
  unfolding fill_buf copied cleared
  read zero len r = out_of_fuel
  read (suc fuel) len r =
      let again : Run (Result (List ℕ) E × Self) = do x ← read fuel len r; done (cleared x)
      in let through : Run (Result (List ℕ) E × Self) = do x ← fill_buf r; copied len x
        in if bypasses len r then again else through

length-zero : (xs : List ℕ) → length xs ≡ 0 → xs ≡ []
length-zero [] h = refl
length-zero (x ∷ xs) h = absurd (omega (arith, h))

module _ (B : BytesMut) {E : Type 0} (R : Read E) (unread : R.Self → List ℕ) where
  -- The bytes that are in the buffer or yet to come.
  abbrev pub to_come : Self B R → List ℕ
  to_come r = B.contents r.buf ++ unread r.inner

  -- The bytes that are given are the next ones, and there are none only at the end; an error gives
  -- none.
  abbrev pub Gives : ℕ → Self B R → Result (List ℕ) E × Self B R → Type 0
  Gives len r (ok xs, r') =
      (to_come r ≡ xs ++ to_come r')
      × (length xs ≤ len)
      × (0 < len → length xs ≡ 0 → to_come r ≡ [])
  Gives len r (err e, r') = to_come r' ≡ to_come r

  -- What `fill_buf` gives: the contents, which are empty only at the end.
  abbrev Fills : Self B R → Result (List ℕ) E × Self B R → Type 0
  Fills r (ok rem, r') =
      (rem ≡ B.contents r'.buf) × (to_come r' ≡ to_come r) × (length rem ≡ 0 → to_come r ≡ [])
  Fills r (err e, r') = to_come r' ≡ to_come r

module _ {B : BytesMut} {E : Type 0} {R : Read E} {unread : R.Self → List ℕ} (lawful : IsBytesMut B)
    (source : IsSource R unread) where
  filled-Fills :
      (r : Self B R) (x : Result ℕ E × Unit {0} × Self B R)
      → length (B.contents r.buf) ≡ 0
      → Extends (bufferless B R) (λ s. unread s.inner) tt r x
      → Fills B R unread r (filled B R x)
  unfolding filled
  filled-Fills r (err e, c, r') empty (kept, same) = rw (kept, same)
  filled-Fills r (ok n, c, r') empty (xs, counted, kept, split, ends) = (
    refl,
    rw (kept, split) (append_assoc (B.contents r.buf) xs (unread r'.inner)),
    λ none_left.
        let none_given : length xs ≡ 0 =
          omega (arith, ap length kept, length-append (B.contents r.buf) xs, none_left) in
        rw (length-zero (B.contents r.buf) empty) (ends (counted ∙ none_given)),
  )

  fill_buf-Fills : (r : Self B R) → Returns (Fills B R unread r) (fill_buf B R r)
  unfolding fill_buf
  fill_buf-Fills r = elim (Bool-cases (length (B.contents r.buf) == 0)) [
    | inl empty ↦ rw empty (
        Returns-bind (Extends (bufferless B R) (λ s. unread s.inner) tt r) (Fills B R unread r)
          (bufferless_extend B R r) (λ x. done (filled B R x))
          ((bufferless-IsLawful lawful source).extend_lem tt r)
          (λ x. filled-Fills r x ((==_iff _ 0).0 empty)))
    | inr full ↦ rw full (
      refl,
      refl,
      λ none_left. cc (sym full ∙ (==_iff (length (B.contents r.buf)) 0).1 none_left),
    )
  ]

  copied-Gives :
      (len : ℕ) (r : Self B R) (x : Result (List ℕ) E × Self B R)
      → Fills B R unread r x
      → Returns (Gives B R unread len r) (copied B R len x)
  unfolding copied consume
  copied-Gives len r (err e, r') same = same
  copied-Gives len r (ok rem, r') (same, kept, ends) =
      let n = length (take len rem) in
      let short : n ≤ length rem = length-take-le_length len rem in
      let (b, ran, left) =
        lawful.contents-advance n r'.buf (omega (arith, ap length same, short)) in
      let split : to_come B R unread r' ≡ take len rem ++ (B.contents b ++ unread r'.inner) =
        ap (λ xs. xs ++ unread r'.inner)
          (sym same
            ∙ sym (take-drop_taken len rem)
            ∙ ap (λ xs. take len rem ++ xs) (sym (left ∙ ap (drop n) (sym same))))
        ∙ append_assoc (take len rem) (B.contents b) (unread r'.inner) in
      rw ran (
        sym kept ∙ split,
        length-take-le len rem,
        λ pos none_given. ends (ap length (none-taken len rem pos none_given)),
      )

  -- Where the buffer has room, or holds more than is asked for, a read ends without a panic and without
  -- a second call: it gives the next bytes, at most as many as are asked for, and none only at the end
  -- or where none are asked for; an error changes no byte.
  pub read-Gives :
      (fuel len : ℕ) (r : Self B R)
      → bypasses B R len r ≡ false
      → Returns (Gives B R unread len r) (read B R (suc fuel) len r)
  unfolding read
  read-Gives fuel len r buffered = rw buffered (
      Returns-bind (Fills B R unread r) (Gives B R unread len r) (fill_buf B R r) (copied B R len)
        (fill_buf-Fills r) (copied-Gives len r))
