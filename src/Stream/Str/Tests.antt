-- ===== src/Stream/Str/Tests.antt =====
-- The theorems on strings, applied to a string with a character of two bytes.
use combine.Prelude.{◌≡◌, false, [], ◌∷◌, done, ltb, Safe}
use combine.Stream.Str.{
  is_char_boundary, split_chars, uncons_range, str_uncons_while, str_len, len_utf8,
}
use combine.Stream.Str.Boundary.{is_char_boundary-split_chars, uncons_range-Safe}
use combine.Stream.Str.While.{str_uncons_while-eq-take_while}

is_char_boundary-split_chars_example : is_char_boundary (97 ∷ 228 ∷ 98 ∷ []) 2 ≡ false
unfolding split_chars len_utf8
is_char_boundary-split_chars_example = is_char_boundary-split_chars 2 (97 ∷ 228 ∷ 98 ∷ [])

uncons_range-Safe_example :
    Safe (λ _. Unit {0}) (uncons_range 2 (record { pointer = 100; chars = 97 ∷ 228 ∷ 98 ∷ [] }))
uncons_range-Safe_example =
    uncons_range-Safe 2 (record { pointer = 100; chars = 97 ∷ 228 ∷ 98 ∷ [] })

str_uncons_while-eq-take_while_example :
    str_uncons_while
      (λ c. ltb 97 c)
      (record { pointer = 100; chars = 228 ∷ 98 ∷ 97 ∷ [] })
      (228 ∷ 98 ∷ 97 ∷ [])
    ≡ done
        (record { pointer = 100; chars = 228 ∷ 98 ∷ [] }, record { pointer = 103; chars = 97 ∷ [] })
unfolding str_len len_utf8
str_uncons_while-eq-take_while_example =
    str_uncons_while-eq-take_while (λ c. ltb 97 c)
      (record { pointer = 100; chars = 228 ∷ 98 ∷ 97 ∷ [] })
