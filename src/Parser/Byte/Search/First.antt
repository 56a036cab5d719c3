-- ===== src/Parser/Byte/Search/First.antt =====
-- src/parser/byte.rs: `memslice` finds the first place of a needle.
use combine.Prelude.{
  ℕ, zero, suc, ◌+◌, ◌≡◌, refl, List, [], ◌∷◌, Option, some, none, ◌==◌, if◌then◌else◌, drop, arith,
  inl, inr, Bool-cases,
}
use combine.Parser.Byte.Search.{starts_with, search, memslice}

-- The places of a byte, from `i` on: what the iterator of `memchr` gives.
pub places : ℕ → ℕ → List ℕ → List ℕ
places i a [] = []
places i a (x ∷ xs) = if a == x then i ∷ places (i + 1) a xs else places (i + 1) a xs

-- The first place of a needle, from `i` on.
unfoldable pub first_place : ℕ → List ℕ → List ℕ → Option ℕ
first_place i needle [] = if starts_with needle [] then some i else none
first_place i needle (x ∷ xs) =
    if starts_with needle (x ∷ xs) then some i else first_place (i + 1) needle xs

drop-suc : (i : ℕ) (h : List ℕ) (x : ℕ) (xs : List ℕ) → drop i h ≡ x ∷ xs → drop (i + 1) h ≡ xs
drop-suc zero [] x xs e = cc
drop-suc zero (y ∷ h) x xs e = cc
drop-suc (suc i) [] x xs e = cc
drop-suc (suc i) (y ∷ h) x xs e =
    let s : suc i + 1 ≡ suc (i + 1) = omega arith in rw s (drop-suc i h x xs e)

module _ (memchr_iter : ℕ → List ℕ → List ℕ) where
  search-first :
      (prefix i : ℕ) (suffix haystack xs : List ℕ)
      → drop i haystack ≡ xs
      → search memchr_iter suffix haystack (places i prefix xs) ≡ first_place i (prefix ∷ suffix) xs
  unfolding search places first_place starts_with
  search-first prefix i suffix haystack [] e = refl
  search-first prefix i suffix haystack (x ∷ xs) e =
      let behind = drop-suc i haystack x xs e in
      elim (Bool-cases (prefix == x)) [
        | inr other ↦ rw other (search-first prefix (i + 1) suffix haystack xs behind)
        | inl here ↦ elim (Bool-cases (starts_with suffix xs)) [
          | inl found ↦ rw (here, behind, found)
          | inr missing ↦
              rw (here, behind, missing) (search-first prefix (i + 1) suffix haystack xs behind)
        ]
      ]

  -- Where `memchr_iter` gives the places of a byte, in order, `memslice` gives the first place at which
  -- the haystack goes on with the needle, and nothing where there is none.
  pub memslice-first :
      (needle haystack : List ℕ)
      → ((a : ℕ) (h : List ℕ) → memchr_iter a h ≡ places 0 a h)
      → memslice memchr_iter needle haystack ≡ first_place 0 needle haystack
  unfolding memslice first_place starts_with
  memslice-first [] [] documented = refl
  memslice-first [] (x ∷ xs) documented = refl
  memslice-first (prefix ∷ suffix) haystack documented =
      rw (documented prefix haystack) (search-first prefix 0 suffix haystack haystack refl)
