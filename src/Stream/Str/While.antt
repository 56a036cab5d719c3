-- ===== src/Stream/Str/While.antt =====
-- src/stream/mod.rs: the loop of `str_uncons_while` splits a string where a plain scan would, at the
-- end of a character.
use combine.Prelude.{
  ℕ, zero, suc, ◌+◌, ◌-◌, ◌<◌, ◌≡◌, refl, ap, ◌∙◌, Bool, List, [], ◌∷◌, some, none, done, leb,
  if◌then◌else◌, arith, Bool-cases, inl, inr, take_while, drop_while, le→leb,
}
use combine.Stream.Str.{
  Str, len_utf8, str_len, split_chars, with_char, halves, split_at, test_next, str_uncons_while,
}
use combine.Stream.Str.Boundary.{len_utf8-pos}

split_chars-step :
    (n c : ℕ) (cs : List ℕ)
    → 0 < n
    → split_chars n (c ∷ cs)
      ≡ (if leb (len_utf8 c) n then with_char c (split_chars (n - len_utf8 c) cs) else none)
unfolding split_chars
split_chars-step zero c cs h = absurd (omega arith)
split_chars-step (suc n) c cs h = refl

split_chars-cons :
    (m c : ℕ) (cs : List ℕ) → split_chars (len_utf8 c + m) (c ∷ cs) ≡ with_char c (split_chars m cs)
split_chars-cons m c cs =
    let pos : 0 < len_utf8 c = len_utf8-pos c in
    split_chars-step (len_utf8 c + m) c cs (omega (arith, pos))
    ∙ rw (le→leb (len_utf8 c) (len_utf8 c + m) (omega arith))
        (ap (λ k. with_char c (split_chars k cs)) (omega arith))

module _ (f : ℕ → Bool) where
  split_chars-take_while :
      (cs : List ℕ)
      → split_chars (str_len (take_while f cs)) cs ≡ some (take_while f cs, drop_while f cs)
  unfolding str_len
  split_chars-take_while [] = unfold split_chars in refl
  split_chars-take_while (c ∷ cs) = elim (Bool-cases (f c)) [
    | inl passes ↦ rw passes (
        split_chars-cons (str_len (take_while f cs)) c cs
        ∙ ap (with_char c) (split_chars-take_while cs))
    | inr fails ↦ rw fails (unfold split_chars in refl)
  ]

  test_next-length :
      (cs : List ℕ)
      → str_len (take_while f cs) + ((test_next f cs).1 + str_len (test_next f cs).0) ≡ str_len cs
  unfolding test_next str_len
  test_next-length [] = refl
  test_next-length (c ∷ cs) = elim (Bool-cases (f c)) [
    | inl passes ↦ rw passes (omega (arith, test_next-length cs))
    | inr fails ↦ rw fails (omega arith)
  ]

  -- `str_uncons_while` over all the characters of a string ends at the end of a character, and splits
  -- the string behind the longest prefix of characters that pass the test.
  pub str_uncons_while-eq-take_while :
      (s : Str)
      → str_uncons_while f s s.chars
        ≡ done (
          record { pointer = s.pointer; chars = take_while f s.chars },
          record {
            pointer = s.pointer + str_len (take_while f s.chars);
            chars = drop_while f s.chars;
          },
        )
  unfolding str_uncons_while split_at
  str_uncons_while-eq-take_while s =
      let len : str_len s.chars - str_len (test_next f s.chars).0 - (test_next f s.chars).1
          ≡ str_len (take_while f s.chars) =
        omega (arith, test_next-length s.chars) in
      ap (λ n. halves s n (split_chars n s.chars)) len
      ∙ ap (halves s (str_len (take_while f s.chars))) (split_chars-take_while s.chars)
