-- ===== src/Stream/BufReader.antt =====
-- src/stream/buf_reader.rs: the buffers of a decoder, over a reader. `Buffer` keeps the bytes beside
-- the reader, `Bufferless` those of a `BufReader`.
pub mod Awaited
pub mod Blocking
pub mod Contract
pub mod Tests
use combine.Prelude.{
  ℕ, ◌+◌, Bool, List, Result, ok, err, Run, done, panicked, out_of_fuel, ◌>>=◌, length, leb,
  if◌then◌else◌,
}
use combine.Stream.Bytes.{BytesMut, Read}

-- `BufReader`.
pub record BufReader (B R : Type 0) : Type 0 where
  pub inner : R
  pub buf : B

-- `with_capacity` and `new`.
unfoldable pub with_capacity : (B : BytesMut) {R : Type 0} → ℕ → R → BufReader B.Self R
with_capacity B capacity inner = record { inner = inner; buf = B.with_capacity capacity }

unfoldable pub new : (B : BytesMut) {R : Type 0} → R → BufReader B.Self R
unfolding with_capacity
new B inner = with_capacity B 8096 inner

-- `discard_buffer`.
unfoldable pub discard_buffer :
    (B : BytesMut) {R : Type 0} → BufReader B.Self R → BufReader B.Self R
discard_buffer B r = record r { buf = B.clear r.buf }

-- `CombineBuffer` and `CombineSyncRead`: the bytes in the buffer, their removal, and a read.
pub record CombineBuffer (B : BytesMut) (E : Type 0) : Type 1 where
  pub Self : Type 0
  pub Reader : Type 0
  pub buffer : Self → Reader → B.Self
  pub advance : ℕ → Self → Reader → Run (Self × Reader)
  pub extend_buf : Self → Reader → Run (Result ℕ E × Self × Reader)

-- Room for 8 KiB, where there is none.
unfoldable pub make_room : (B : BytesMut) → B.Self → B.Self
make_room B b = if B.has_remaining_mut b then b else B.reserve 8192 b

module _ (B : BytesMut) {E : Type 0} (R : Read E) where
  abbrev pub Extended : Type 0
  Extended = Run (Result ℕ E × B.Self × R.Self)

  -- The result of a read into `room` bytes, which may not report more.
  unfoldable pub written : ℕ → B.Self → Result (List ℕ) E × R.Self → Extended
  written room b (err e, r) = done (err e, b, r)
  written room b (ok xs, r) =
      if leb (length xs) room then done (ok (length xs), B.advance_mut xs b, r) else panicked

  unfoldable pub extend_buf_sync : B.Self → R.Self → Extended
  unfolding make_room written
  extend_buf_sync b r =
      let (room, b') = B.bytes_mut (make_room B b) in written room b' (R.read room r)

  -- `Buffer`.
  abbrev pub internal : CombineBuffer B E
  internal = record {
    Self = B.Self;
    Reader = R.Self;
    buffer = λ b _. b;
    advance = λ n b r. (do b' ← B.advance n b; done (b', r));
    extend_buf = extend_buf_sync;
  }

  unfoldable pub bufferless_extend :
      BufReader B.Self R.Self → Run (Result ℕ E × Unit {0} × BufReader B.Self R.Self)
  unfolding extend_buf_sync
  bufferless_extend r = do
    (n, buf, inner) ← extend_buf_sync r.buf r.inner
    done (n, tt, record { inner = inner; buf = buf })

  -- `Bufferless`.
  abbrev pub bufferless : CombineBuffer B E
  bufferless = record {
    Self = Unit {0};
    Reader = BufReader B.Self R.Self;
    buffer = λ _ r. r.buf;
    advance = λ n _ r. (do b ← B.advance n r.buf; done (tt, record r { buf = b }));
    extend_buf = λ _ r. bufferless_extend r;
  }
