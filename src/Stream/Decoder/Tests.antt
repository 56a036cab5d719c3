-- ===== src/Stream/Decoder/Tests.antt =====
-- The theorems on decoders, applied to a buffer of room for two bytes at a time.
use combine.Stream.BufReader.Tests.{
  present, two_bytes, two_bytes-IsBytesMut, list_reader, list_reader-IsSource,
  list_reader-NeverFails,
}
use combine.Prelude.{le→leb, true, false, ℕ, refl, Bool, [], ◌∷◌, arith, ltb, inr}
use combine.Stream.BufReader.Contract.{internal-IsLawful, internal-AlwaysReads}
use combine.Stream.Decoder.{new}
use combine.Parser.Range
use combine.Parser.Core.{Parser}
use combine.Stream.Slice.{Slice, uncons_range, uncons, split_at}
use combine.Stream.Range.{range_result}
use combine.Parser.Core.{settle, settle_peek, report_next, reset_then}
use combine.Stream.Ops.{wrap_stream_error}
use combine.Stream.BufReader.{internal}
use combine.Stream.Decoder.{decode_loop}
use combine.Stream.Decoder.Refines.{Refines, decode_loop-Refines}
use combine.Stream.Decoder.Bufferless.{bytes, at, Leaves, Parses}
use combine.Parser.Core.Entry.{parse_with_state}
use combine.Stream.Decoder.Rounds.{Passes, decode_passing}
use combine.Stream.Decoder.Resumes.{Ends, decode-Ends}
use combine.Stream.Decoder.TakeWhile.{decode-take_while}
use combine.Stream.Bytes.{Read, IsSource}
use combine.Prelude.{
  List, Option, some, none, zero, suc, Result, ok, err, ◌≡◌, refl, ◌++◌, length, ◌≤◌, ◌<◌, subst,
  Returns,
}

abbrev small : ℕ → Bool
small x = ltb x 5

-- The bytes in the order in which they are read, two at a time.
decode-take_while_example :
    Passes
      (internal-IsLawful two_bytes-IsBytesMut list_reader-IsSource)
      small
      9
      (new 0 0 [])
      (1 ∷ 2 ∷ 3 ∷ 7 ∷ 4 ∷ [])
decode-take_while_example =
    decode-take_while (internal-IsLawful two_bytes-IsBytesMut list_reader-IsSource)
      (internal-AlwaysReads two_bytes list_reader-IsSource list_reader-NeverFails) small 9
      (new 0 0 []) (1 ∷ 2 ∷ 3 ∷ 7 ∷ 4 ∷ []) (inr (refl, omega arith)) (omega arith)

-- A reader of single bytes, which fails where the list has none.
abbrev read_byte : ℕ → List (Option ℕ) → Result (List ℕ) (Unit {0}) × List (Option ℕ)
read_byte n [] = (ok [], [])
read_byte n (none ∷ r) = (err tt, r)
read_byte zero (some x ∷ r) = (ok [], some x ∷ r)
read_byte (suc n) (some x ∷ r) = (ok (x ∷ []), r)

abbrev failing_reader : Read (Unit {0})
failing_reader = record { Self = List (Option ℕ); read = read_byte }

-- What a read has given.
abbrev Given : ℕ → List (Option ℕ) → Result (List ℕ) (Unit {0}) × List (Option ℕ) → Type 0
Given n r (err e, r') = present r' ≡ present r
Given n r (ok xs, r') =
    (present r ≡ xs ++ present r') × (length xs ≤ n) × (0 < n → xs ≡ [] → present r ≡ [])

read_byte-Given : (n : ℕ) (r : List (Option ℕ)) → Given n r (read_byte n r)
read_byte-Given n [] = (refl, omega arith, λ pos h. refl)
read_byte-Given n (none ∷ r) = refl
read_byte-Given zero (some x ∷ r) = (refl, omega arith, λ pos h. absurd (omega (arith, pos)))
read_byte-Given (suc n) (some x ∷ r) = (refl, omega arith, λ pos h. cc)

failing_reader-IsSource : IsSource failing_reader present
failing_reader-IsSource = record {
  given = λ n r r' xs h. let good = subst (Given n r) h (read_byte-Given n r) in (good.0, good.1);
  failed = λ n r r' e h. subst (Given n r) h (read_byte-Given n r);
  ended = λ n r r' pos h. (subst (Given n r) h (read_byte-Given n r)).2 pos refl;
}

-- The reader fails between the bytes.
decode-Ends_example :
    Returns
      (Ends
        (internal-IsLawful two_bytes-IsBytesMut failing_reader-IsSource)
        small
        (new 0 0 [])
        (some 1 ∷ none ∷ some 7 ∷ []))
      (decode_passing
        (internal two_bytes failing_reader)
        small
        4
        (new 0 0 [])
        (some 1 ∷ none ∷ some 7 ∷ []))
decode-Ends_example =
    decode-Ends (internal-IsLawful two_bytes-IsBytesMut failing_reader-IsSource) small 4
      (new 0 0 []) (some 1 ∷ none ∷ some 7 ∷ []) (inr (refl, omega arith)) (omega arith)

abbrev take_three : Parser bytes.stream (Slice ℕ)
take_three = Range.take bytes 3

three_of-Leaves :
    (pointer : ℕ) (xs : List ℕ) (b : Bool) (st : take_three.PartialState)
    → Returns
        (Leaves take_three (at take_three pointer xs, b))
        (parse_with_state take_three (at take_three pointer xs, b) st)
unfolding parse_with_state Range.take uncons_range settle range_result uncons split_at
    wrap_stream_error settle_peek report_next reset_then
three_of-Leaves pointer [] true st = (omega arith, refl)
three_of-Leaves pointer [] false st = (omega arith, refl)
three_of-Leaves pointer (x ∷ []) true st = (omega arith, refl)
three_of-Leaves pointer (x ∷ []) false st = (omega arith, refl)
three_of-Leaves pointer (x ∷ y ∷ []) true st = (omega arith, refl)
three_of-Leaves pointer (x ∷ y ∷ []) false st = (omega arith, refl)
three_of-Leaves pointer (x ∷ y ∷ z ∷ xs) b st =
    rw (le→leb 3 (suc (suc (suc (length xs)))) (omega arith)) (omega arith, refl)

take_three-Parses : Parses take_three
take_three-Parses (s, b) st = three_of-Leaves s.pointer s.items b st

decode_loop-Refines_example :
    Returns
      (Refines
        (internal-IsLawful two_bytes-IsBytesMut list_reader-IsSource)
        take_three
        (new 0 take_three.default [])
        (1 ∷ 2 ∷ 3 ∷ 7 ∷ []))
      (decode_loop
        (internal two_bytes list_reader)
        bytes
        (λ input _. input)
        take_three
        9
        (new 0 take_three.default [])
        (1 ∷ 2 ∷ 3 ∷ 7 ∷ []))
decode_loop-Refines_example =
    decode_loop-Refines (internal-IsLawful two_bytes-IsBytesMut list_reader-IsSource) take_three
      take_three-Parses 9 (new 0 take_three.default []) (1 ∷ 2 ∷ 3 ∷ 7 ∷ []) (omega arith)
