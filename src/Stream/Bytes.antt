-- ===== src/Stream/Bytes.antt =====
-- What src/stream/buf_reader.rs calls: `BytesMut` of the crate `bytes`, and readers. They are
-- interfaces, with what their docs say as laws.
use combine.Prelude.{
  ℕ, ◌≤◌, ◌<◌, ◌≡◌, Bool, true, List, [], ◌++◌, length, drop, Result, ok, err, Run, done,
}

-- `BytesMut` as a `Buf` and a `BufMut`. `bytes_mut` gives the length of the slice behind the contents
-- that may be written to; `advance_mut` takes the bytes that were written to it.
pub record BytesMut : Type 1 where
  pub Self : Type 0
  pub contents : Self → List ℕ
  pub as_ptr : Self → ℕ
  pub default : Self
  pub with_capacity : ℕ → Self
  pub has_remaining_mut : Self → Bool
  pub reserve : ℕ → Self → Self
  pub bytes_mut : Self → ℕ × Self
  pub advance_mut : List ℕ → Self → Self
  pub advance : ℕ → Self → Run Self
  pub clear : Self → Self

-- The contents change only at their ends, and there is room where the docs promise it.
pub record IsBytesMut (B : BytesMut) : Type 0 where
  pub contents-default : B.contents B.default ≡ []
  pub contents-reserve : (n : ℕ) (b : B.Self) → B.contents (B.reserve n b) ≡ B.contents b
  pub contents-bytes_mut : (b : B.Self) → B.contents (B.bytes_mut b).1 ≡ B.contents b
  pub contents-advance_mut :
      (xs : List ℕ) (b : B.Self)
      → length xs ≤ (B.bytes_mut b).0
      → B.contents (B.advance_mut xs (B.bytes_mut b).1) ≡ B.contents b ++ xs
  pub contents-advance :
      (n : ℕ) (b : B.Self)
      → n ≤ length (B.contents b)
      → (b' : B.Self) × (B.advance n b ≡ done b') × (B.contents b' ≡ drop n (B.contents b))
  pub has_remaining_mut-bytes_mut :
      (b : B.Self) → B.has_remaining_mut (B.bytes_mut b).1 ≡ B.has_remaining_mut b
  pub bytes_mut_pos : (b : B.Self) → B.has_remaining_mut b ≡ true → 0 < (B.bytes_mut b).0
  pub has_remaining_mut-reserve :
      (n : ℕ) (b : B.Self) → 0 < n → B.has_remaining_mut (B.reserve n b) ≡ true

-- `std::io::Read`: `read` into a slice of the given length gives the bytes that it reports.
pub record Read (E : Type 0) : Type 1 where
  pub Self : Type 0
  pub read : ℕ → Self → Result (List ℕ) E × Self

-- A reader gives the bytes that it has yet to give, `unread`, in order, at most as many as fit, and
-- none where it fails.
pub record IsSource {E : Type 0} (R : Read E) (unread : R.Self → List ℕ) : Type 0 where
  pub given :
      (n : ℕ) (r r' : R.Self) (xs : List ℕ)
      → R.read n r ≡ (ok xs, r')
      → (unread r ≡ xs ++ unread r') × (length xs ≤ n)
  pub failed : (n : ℕ) (r r' : R.Self) (e : E) → R.read n r ≡ (err e, r') → unread r' ≡ unread r
  pub ended : (n : ℕ) (r r' : R.Self) → 0 < n → R.read n r ≡ (ok [], r') → unread r ≡ []

-- A reader that never fails.
abbrev pub NeverFails : {E : Type 0} → Read E → Type 0
NeverFails R = (n : ℕ) (r : R.Self) → (xs : List ℕ) × (r' : R.Self) × (R.read n r ≡ (ok xs, r'))
