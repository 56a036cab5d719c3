-- ===== src/Stream/Str/Boundary.antt =====
-- src/stream/mod.rs: where a string may be split. The test in `uncons_range` looks at one byte; the
-- string can be split there exactly where a character ends.
use combine.Prelude.{
  ℕ, zero, suc, ◌-◌, ◌≤◌, ◌<◌, ◌≡◌, refl, sym, ap, ◌∙◌, Bool, true, false, List, [], ◌∷◌, ◌++◌,
  Option, some, none, length, get_elem?, leb, if◌then◌else◌, arith, Bool-cases, inl, inr,
  length-append, Safe, Safe-bind, leb→le,
}
use combine.Stream.Str.{
  Str, encode, len_utf8, as_bytes, str_len, split_chars, with_char, halves, split_at,
  is_boundary_byte, is_char_boundary, uncons_range,
}

length-encode : (c : ℕ) → length (encode c) ≡ len_utf8 c
unfolding encode len_utf8
length-encode c = ground arith

length-as_bytes : (cs : List ℕ) → length (as_bytes cs) ≡ str_len cs
unfolding as_bytes str_len
length-as_bytes [] = refl
length-as_bytes (c ∷ cs) =
    length-append (encode c) (as_bytes cs) ∙ omega (arith, length-encode c, length-as_bytes cs)

-- Only the first byte of a character is a boundary.
encode-first : (c : ℕ) (bs : List ℕ) → is_boundary_byte (get_elem? (encode c ++ bs) 0) ≡ true
unfolding encode is_boundary_byte
encode-first c bs = ground arith

encode-inside :
    (c k : ℕ) (bs : List ℕ)
    → suc k < len_utf8 c
    → is_boundary_byte (get_elem? (encode c ++ bs) (suc k)) ≡ false
unfolding encode is_boundary_byte len_utf8
encode-inside c zero bs h = ground arith
encode-inside c (suc zero) bs h = ground arith
encode-inside c (suc (suc zero)) bs h = ground arith
encode-inside c (suc (suc (suc k))) bs h = absurd (ground arith)

pub len_utf8-pos : (c : ℕ) → 0 < len_utf8 c
unfolding len_utf8
len_utf8-pos c = ground arith

get_elem?-behind :
    (xs ys : List ℕ) (k : ℕ) → length xs ≤ k → get_elem? (xs ++ ys) k ≡ get_elem? ys (k - length xs)
get_elem?-behind [] ys k h = ap (get_elem? ys) (omega arith)
get_elem?-behind (x ∷ xs) ys zero h = absurd (omega arith)
get_elem?-behind (x ∷ xs) ys (suc k) h =
    get_elem?-behind xs ys k (omega arith) ∙ ap (get_elem? ys) (omega arith)

-- The test on a string, from the test behind its first character.
boundary-cons :
    (c : ℕ) (cs : List ℕ) (n : ℕ)
    → is_char_boundary (c ∷ cs) (suc n)
      ≡ (if leb (len_utf8 c) (suc n) then is_char_boundary cs (suc n - len_utf8 c) else false)
unfolding is_char_boundary str_len as_bytes
boundary-cons c cs n = elim (Bool-cases (leb (len_utf8 c) (suc n))) [
  | inl behind ↦
      let le : len_utf8 c ≤ suc n = leb→le (len_utf8 c) (suc n) behind in
      let byte : get_elem? (encode c ++ as_bytes cs) (suc n)
          ≡ get_elem? (as_bytes cs) (suc n - len_utf8 c) =
        get_elem?-behind (encode c) (as_bytes cs) (suc n) (omega (arith, length-encode c))
        ∙ ap (λ k. get_elem? (as_bytes cs) (suc n - k)) (length-encode c) in
      rw (behind, byte) (ground (arith, le))
  | inr inside ↦
      rw (inside, encode-inside c n (as_bytes cs) (ground (arith, inside))) (ground (arith, inside))
]

abbrev pub is_some : {A : Type 0} → Option A → Bool
is_some none = false
is_some (some _) = true

is_some-with_char : (c : ℕ) (o : Option (List ℕ × List ℕ)) → is_some o ≡ is_some (with_char c o)
is_some-with_char c none = refl
is_some-with_char c (some (l, r)) = refl

-- The test on the byte at an index is true exactly where the string can be split.
pub is_char_boundary-split_chars :
    (n : ℕ) (cs : List ℕ) → is_char_boundary cs n ≡ is_some (split_chars n cs)
unfolding split_chars
is_char_boundary-split_chars zero [] = unfold is_char_boundary str_len in refl
is_char_boundary-split_chars zero (c ∷ cs) =
    unfold is_char_boundary str_len as_bytes in rw (encode-first c (as_bytes cs)) (ground arith)
is_char_boundary-split_chars (suc n) [] =
    unfold is_char_boundary str_len is_boundary_byte as_bytes in ground arith
is_char_boundary-split_chars (suc n) (c ∷ cs) =
    boundary-cons c cs n ∙ elim (Bool-cases (leb (len_utf8 c) (suc n))) [
      | inl behind ↦ rw behind (
          is_char_boundary-split_chars (suc n - len_utf8 c) cs
          ∙ is_some-with_char c (split_chars (suc n - len_utf8 c) cs))
      | inr inside ↦ rw inside refl
    ]

split_at-Safe :
    (n : ℕ) (s : Str) → is_some (split_chars n s.chars) ≡ true → Safe (λ _. Unit {0}) (split_at n s)
unfolding split_at
split_at-Safe n s h = go (split_chars n s.chars) h
  where
    go : (o : Option (List ℕ × List ℕ)) → is_some o ≡ true → Safe (λ _. Unit {0}) (halves s n o)
    go none h = cc
    go (some (l, r)) h = tt

-- `uncons_range` on a string never panics: where its test on one byte passes, the string can be split.
pub uncons_range-Safe : (n : ℕ) (s : Str) → Safe (λ _. Unit {0}) (uncons_range n s)
unfolding uncons_range
uncons_range-Safe n s = elim (Bool-cases (leb n (str_len s.chars))) [
  | inl fits ↦ elim (Bool-cases (is_char_boundary s.chars n)) [
    | inl boundary ↦
        rw (fits, boundary)
          (Safe-bind (λ _. Unit {0}) (λ _. Unit {0}) (split_at n s) _
            (split_at-Safe n s (sym (is_char_boundary-split_chars n s.chars) ∙ boundary)) λ x _. tt)
    | inr inside ↦ rw (fits, inside) tt
  ]
  | inr short ↦ rw short tt
]
