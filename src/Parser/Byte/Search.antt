-- ===== src/Parser/Byte/Search.antt =====
-- src/parser/byte.rs: `memslice`, and the parsers that take up to a byte or a needle. The crate `memchr`
-- is an argument: `memchr_iter a haystack` are the places of `a`, and `memchr`, `memchr2` and `memchr3` the
-- first place of one of the bytes.
pub mod First
use combine.Prelude.{
  ℕ, suc, ◌+◌, ◌-◌, Bool, true, false, ◌&&◌, List, [], ◌∷◌, Option, some, none, ◌==◌, if◌then◌else◌,
  length, drop,
}
use combine.Stream.Range.{RangeStream}
use combine.Parser.Core.{Parser}
use combine.Parser.Range.Until.{TakeRange, found_at, not_found, take_fn}

-- `starts_with`.
unfoldable pub starts_with : List ℕ → List ℕ → Bool
starts_with [] xs = true
starts_with (y ∷ ys) [] = false
starts_with (y ∷ ys) (x ∷ xs) = (y == x) && starts_with ys xs

module _ (memchr_iter : ℕ → List ℕ → List ℕ) where
  -- The loop over the places of the needle's first byte.
  unfoldable pub search : List ℕ → List ℕ → List ℕ → Option ℕ
  unfolding starts_with
  search suffix haystack [] = none
  search suffix haystack (i ∷ places) =
      if starts_with suffix (drop (i + 1) haystack) then some i else search suffix haystack places

  unfoldable pub memslice : List ℕ → List ℕ → Option ℕ
  unfolding search
  memslice [] haystack = some 0
  memslice (prefix ∷ suffix) haystack = search suffix haystack (memchr_iter prefix haystack)

-- The macro `take_until!`; `find` is one of the functions of `memchr`, with its bytes. `as_ref` are
-- the bytes of a range.
module _ (R : RangeStream) (as_ref : R.stream.Range → List ℕ) where
  found_or_end : List ℕ → Option ℕ → TakeRange
  found_or_end haystack (some i) = found_at i
  found_or_end haystack none = not_found (length haystack)

  unfoldable pub take_until : (List ℕ → Option ℕ) → Parser R.stream R.stream.Range
  unfolding take_fn found_or_end
  take_until find = take_fn R λ haystack. found_or_end (as_ref haystack) (find (as_ref haystack))

  unfoldable pub take_until_byte : (ℕ → List ℕ → Option ℕ) → ℕ → Parser R.stream R.stream.Range
  unfolding take_until
  take_until_byte memchr a = take_until (memchr a)

  unfoldable pub take_until_byte2 :
      (ℕ → ℕ → List ℕ → Option ℕ) → ℕ → ℕ → Parser R.stream R.stream.Range
  unfolding take_until
  take_until_byte2 memchr2 a b = take_until (memchr2 a b)

  unfoldable pub take_until_byte3 :
      (ℕ → ℕ → ℕ → List ℕ → Option ℕ) → ℕ → ℕ → ℕ → Parser R.stream R.stream.Range
  unfolding take_until
  take_until_byte3 memchr3 a b c = take_until (memchr3 a b c)

  -- Nothing that could be the start of a needle is passed over.
  slice_or_end : List ℕ → List ℕ → Option ℕ → TakeRange
  slice_or_end needle haystack (some i) = found_at i
  slice_or_end needle haystack none = not_found (length haystack - (length needle - 1))

  unfoldable pub take_until_bytes : (ℕ → List ℕ → List ℕ) → List ℕ → Parser R.stream R.stream.Range
  unfolding take_fn slice_or_end memslice
  take_until_bytes memchr_iter needle = take_fn R λ haystack.
      slice_or_end needle (as_ref haystack) (memslice memchr_iter needle (as_ref haystack))
