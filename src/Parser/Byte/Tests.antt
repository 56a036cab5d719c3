-- ===== src/Parser/Byte/Tests.antt =====
-- The theorems on bytes, applied to numbers of two bytes and to a short haystack.
use combine.Prelude.{ℕ, ◌≡◌, refl, [], ◌∷◌, some, done, arith}
use combine.Error.Types.{commit_ok}
use combine.Stream.Slice.{slice_stream}
use combine.Parser.Byte.Num.{be_unsigned}
use combine.Parser.Byte.Num.Roundtrip.{bound, to_be_bytes, be_unsigned-to_be_bytes}
use combine.Parser.Byte.Search.{memslice, starts_with}
use combine.Parser.Byte.Search.First.{places, first_place, memslice-first}

be_unsigned-to_be_bytes_example :
    (be_unsigned (slice_stream ℕ 1) (λ b. b) 2).parse_lazy
      (record { pointer = 100; items = 1 ∷ 44 ∷ 9 ∷ [] })
    ≡ done (commit_ok 300, record { pointer = 102; items = 9 ∷ [] })
unfolding to_be_bytes bound
be_unsigned-to_be_bytes_example = be_unsigned-to_be_bytes 2 300 100 (9 ∷ []) (omega arith)

memslice-first_example : memslice (places 0) (1 ∷ 2 ∷ []) (1 ∷ 1 ∷ 2 ∷ 1 ∷ []) ≡ some 1
unfolding first_place starts_with
memslice-first_example = memslice-first (places 0) (1 ∷ 2 ∷ []) (1 ∷ 1 ∷ 2 ∷ 1 ∷ []) (λ a h. refl)
