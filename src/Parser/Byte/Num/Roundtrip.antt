-- ===== src/Parser/Byte/Num/Roundtrip.antt =====
-- src/parser/byte.rs, `num`: the numbers that are read are those whose bytes were written.
use Prim.Native.Nat.{◌%◌, ◌/◌}
use combine.Prelude.{
  ℕ, zero, suc, ◌+◌, ◌*◌, ◌<◌, ◌≡◌, refl, ◌∙◌, List, [], ◌∷◌, ◌++◌, append_assoc, append-nil,
  length-append, length, arith, done,
}
use combine.Error.Types.{commit_ok}
use combine.Stream.Slice.{Slice, slice_stream, uncons as uncons_slice}
use combine.Parser.Byte.Num.{be_value, le_value, read_bytes, be_unsigned, le_unsigned, number}
use combine.Parser.Function.{fn_parser}
use combine.Stream.Core.{Stream}
use combine.Stream.Ops.{uncons}

-- `to_le_bytes` and `to_be_bytes` of a number of `n` bytes.
unfoldable pub to_le_bytes : ℕ → ℕ → List ℕ
to_le_bytes zero v = []
to_le_bytes (suc n) v = v % 256 ∷ to_le_bytes n (v / 256)

unfoldable pub to_be_bytes : ℕ → ℕ → List ℕ
to_be_bytes zero v = []
to_be_bytes (suc n) v = to_be_bytes n (v / 256) ++ v % 256 ∷ []

-- `256 ^ n`.
unfoldable pub bound : ℕ → ℕ
bound zero = 1
bound (suc n) = 256 * bound n

le_value-to_le_bytes : (n v : ℕ) → v < bound n → le_value (to_le_bytes n v) ≡ v
unfolding le_value to_le_bytes bound
le_value-to_le_bytes zero v h = omega (arith, h)
le_value-to_le_bytes (suc n) v h =
    let ih = le_value-to_le_bytes n (v / 256) (omega (arith, h)) in omega (arith, ih)

be_value-snoc : (v b : ℕ) (xs : List ℕ) → be_value v (xs ++ b ∷ []) ≡ be_value v xs * 256 + b
unfolding be_value
be_value-snoc v b [] = refl
be_value-snoc v b (x ∷ xs) = be_value-snoc (v * 256 + x) b xs

be_value-to_be_bytes : (n v : ℕ) → v < bound n → be_value 0 (to_be_bytes n v) ≡ v
unfolding be_value to_be_bytes bound
be_value-to_be_bytes zero v h = omega (arith, h)
be_value-to_be_bytes (suc n) v h =
    let ih = be_value-to_be_bytes n (v / 256) (omega (arith, h)) in
    be_value-snoc 0 (v % 256) (to_be_bytes n (v / 256)) ∙ omega (arith, ih)

length-to_be_bytes : (n v : ℕ) → length (to_be_bytes n v) ≡ n
unfolding to_be_bytes
length-to_be_bytes zero v = refl
length-to_be_bytes (suc n) v =
    omega (
      arith,
      length-append (to_be_bytes n (v / 256)) (v % 256 ∷ []),
      length-to_be_bytes n (v / 256),
    )

length-to_le_bytes : (n v : ℕ) → length (to_le_bytes n v) ≡ n
unfolding to_le_bytes
length-to_le_bytes zero v = refl
length-to_le_bytes (suc n) v = omega (arith, length-to_le_bytes n (v / 256))

abbrev byte_slices : Stream
byte_slices = slice_stream ℕ 1

abbrev at : ℕ → List ℕ → Slice ℕ
at p bs = record { pointer = p; items = bs }

read_bytes-enough :
    (bs rest read : List ℕ) (p : ℕ)
    → read_bytes byte_slices (λ b. b) (length bs) read (at p (bs ++ rest))
      ≡ (commit_ok (read ++ bs), at (p + length bs) rest)
unfolding read_bytes uncons uncons_slice
read_bytes-enough [] rest read p = let e : p + 0 ≡ p = omega arith in rw (append-nil read, e)
read_bytes-enough (b ∷ bs) rest read p =
    let e : p + 1 + length bs ≡ p + suc (length bs) = omega arith in
    read_bytes-enough bs rest (read ++ b ∷ []) (p + 1) ∙ rw (append_assoc read (b ∷ []) bs, e)

number-read :
    {A : Type 0} (bs rest : List ℕ) (n p : ℕ) (from_bytes : List ℕ → A)
    → length bs ≡ n
    → (number byte_slices (λ b. b) n from_bytes).parse_lazy (at p (bs ++ rest))
      ≡ done (commit_ok (from_bytes bs), at (p + n) rest)
unfolding number fn_parser
number-read bs rest n p from_bytes e = rw (← e, read_bytes-enough bs rest [] p)

-- A number below `256 ^ n`, written as `n` bytes, is read again, and nothing behind it is.
pub be_unsigned-to_be_bytes :
    (n v p : ℕ) (rest : List ℕ)
    → v < bound n
    → (be_unsigned byte_slices (λ b. b) n).parse_lazy (at p (to_be_bytes n v ++ rest))
      ≡ done (commit_ok v, at (p + n) rest)
unfolding be_unsigned
be_unsigned-to_be_bytes n v p rest h =
    number-read (to_be_bytes n v) rest n p (be_value 0) (length-to_be_bytes n v)
    ∙ rw (be_value-to_be_bytes n v h)

pub le_unsigned-to_le_bytes :
    (n v p : ℕ) (rest : List ℕ)
    → v < bound n
    → (le_unsigned byte_slices (λ b. b) n).parse_lazy (at p (to_le_bytes n v ++ rest))
      ≡ done (commit_ok v, at (p + n) rest)
unfolding le_unsigned
le_unsigned-to_le_bytes n v p rest h =
    number-read (to_le_bytes n v) rest n p le_value (length-to_le_bytes n v)
    ∙ rw (le_value-to_le_bytes n v h)
