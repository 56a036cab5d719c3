-- ===== src/Stream/BufReader/Awaited.antt =====
-- src/stream/buf_reader.rs and decoder.rs: the readers that are polled. A task that awaits polls again
-- until there is a result; the fuel bounds the polls. The `Context` that is woken is left out.
pub mod Contract
use combine.Prelude.{
  ℕ, zero, suc, not, ◌&&◌, List, Result, ok, err, Run, done, panicked, out_of_fuel, ◌>>=◌, length,
  take, leb, ◌==◌, if◌then◌else◌,
}
use combine.Stream.Bytes.{BytesMut}
use combine.Stream.BufReader.{BufReader, discard_buffer, CombineBuffer, make_room}

-- `Poll`.
pub data Poll (A : Type 0) : Type 0 where
  ready : A → Poll A
  pending : Poll A

-- `AsyncRead`, of `futures` or `tokio`; `poll_read_buf` is the method that `tokio` provides.
pub record AsyncRead (B : BytesMut) (E : Type 0) : Type 1 where
  pub Self : Type 0
  pub poll_read : ℕ → Self → Poll (Result (List ℕ) E) × Self
  pub poll_read_buf : B.Self → Self → Poll (Result ℕ E) × (B.Self × Self)

-- `.await` of a `poll_fn`, or of `ExtendBuf`.
unfoldable pub await : {S A : Type 0} → ℕ → (S → Run (Poll A × S)) → S → Run (A × S)
await zero poll s = out_of_fuel
await (suc fuel) poll s = do
  (x, s') ← poll s
  elim x [ ready a ↦ done (a, s') | pending ↦ await fuel poll s' ]

module _ (B : BytesMut) {E : Type 0} (R : AsyncRead B E) where
  abbrev pub Polled : Type 0
  Polled = Run (Poll (Result ℕ E) × (B.Self × R.Self))

  -- `poll_extend_buf` of the trait `CombineRead`, with `tokio`.
  unfoldable pub poll_extend_tokio : B.Self × R.Self → Polled
  unfolding make_room
  poll_extend_tokio (b, r) = done (R.poll_read_buf (make_room B b) r)

  -- The function `poll_extend_buf`, with `futures`: the bytes that the reader reports are the
  -- buffer's.
  unfoldable pub poll_written : ℕ → B.Self → Poll (Result (List ℕ) E) × R.Self → Polled
  poll_written room b (pending, r) = done (pending, (b, r))
  poll_written room b (ready (err e), r) = done (ready (err e), (b, r))
  poll_written room b (ready (ok xs), r) =
      if leb (length xs) room
      then done (ready (ok (length xs)), (B.advance_mut xs b, r))
      else panicked

  unfoldable pub poll_extend_buf : B.Self × R.Self → Polled
  unfolding poll_written
  poll_extend_buf (b, r) =
      let (room, b') = B.bytes_mut b in poll_written room b' (R.poll_read room r)

  -- `extend_buf` of `Buffer`, which makes room and has it zeroed once, and its `ExtendBuf`, awaited.
  unfoldable pub extend_async : ℕ → B.Self → R.Self → Run (Result ℕ E × B.Self × R.Self)
  unfolding make_room poll_extend_buf await
  extend_async fuel b r = do
    (x, s) ← await fuel poll_extend_buf ((B.bytes_mut (make_room B b)).1, r)
    done (x, s.0, s.1)

  unfoldable pub extend_tokio : ℕ → B.Self → R.Self → Run (Result ℕ E × B.Self × R.Self)
  unfolding poll_extend_tokio await
  extend_tokio fuel b r = do (x, s) ← await fuel poll_extend_tokio (b, r); done (x, s.0, s.1)

  -- `Buffer` and `Bufferless` with a reader whose reads are `extend`.
  abbrev pub awaited : (B.Self → R.Self → Run (Result ℕ E × B.Self × R.Self)) → CombineBuffer B E
  awaited extend = record {
    Self = B.Self;
    Reader = R.Self;
    buffer = λ b _. b;
    advance = λ n b r. (do b' ← B.advance n b; done (b', r));
    extend_buf = extend;
  }

  abbrev pub awaited_bufferless :
      (B.Self → R.Self → Run (Result ℕ E × B.Self × R.Self)) → CombineBuffer B E
  awaited_bufferless extend = record {
    Self = Unit {0};
    Reader = BufReader B.Self R.Self;
    buffer = λ _ r. r.buf;
    advance = λ n _ r. (do b ← B.advance n r.buf; done (tt, record r { buf = b }));
    extend_buf = λ _ r. (do
      (n, b, inner) ← extend r.buf r.inner
      done (n, tt, record { inner = inner; buf = b }));
  }

  polled :
      Poll (Result ℕ E) × (B.Self × R.Self) → Poll (Result (List ℕ) E) × BufReader B.Self R.Self
  polled (pending, (b, inner)) = (pending, record { inner = inner; buf = b })
  polled (ready (err e), (b, inner)) = (ready (err e), record { inner = inner; buf = b })
  polled (ready (ok n), (b, inner)) = (ready (ok (B.contents b)), record { inner = inner; buf = b })

  -- `poll_fill_buf` and `consume`, and `poll_read` into `len` bytes, of `BufReader` with `tokio`.
  unfoldable pub poll_fill_buf :
      BufReader B.Self R.Self → Poll (Result (List ℕ) E) × BufReader B.Self R.Self
  unfolding polled
  poll_fill_buf r =
      if length (B.contents r.buf) == 0
      then polled (R.poll_read_buf r.buf r.inner)
      else (ready (ok (B.contents r.buf)), r)

  poll_copied :
      ℕ
      → Poll (Result (List ℕ) E) × BufReader B.Self R.Self
      → Run (Poll (Result (List ℕ) E) × BufReader B.Self R.Self)
  poll_copied len (pending, r) = done (pending, r)
  poll_copied len (ready (err e), r) = done (ready (err e), r)
  poll_copied len (ready (ok rem), r) = do
    b ← B.advance (length (take len rem)) r.buf
    done (ready (ok (take len rem)), record r { buf = b })

  -- Past the buffer, which is discarded once there is a result.
  poll_past :
      B.Self
      → Poll (Result (List ℕ) E) × R.Self
      → Poll (Result (List ℕ) E) × BufReader B.Self R.Self
  unfolding discard_buffer
  poll_past b (pending, inner) = (pending, record { inner = inner; buf = b })
  poll_past b (ready x, inner) = (ready x, discard_buffer B (record { inner = inner; buf = b }))

  unfoldable pub poll_read :
      ℕ → BufReader B.Self R.Self → Run (Poll (Result (List ℕ) E) × BufReader B.Self R.Self)
  unfolding poll_fill_buf poll_copied poll_past
  poll_read len r =
      if not (B.has_remaining_mut r.buf) && leb (length (B.contents r.buf)) len
      then done (poll_past r.buf (R.poll_read len r.inner))
      else poll_copied len (poll_fill_buf r)
