-- ===== src/Parser/Range/Feed.antt =====
-- src/parser/range.rs: `take_while` over a slice that comes in chunks. A caller parses what is there,
-- and where the parser asks for more it adds the next chunk and resumes the parser.
use combine.Prelude.{
  ℕ, ◌≤◌, ◌<◌, ◌≡◌, refl, sym, ap, ◌∙◌, Bool, List, [], ◌∷◌, ◌++◌, Option, none, some, Run, done,
  ◌>>=◌, length, take_while, drop_while, arith, ◌⊎◌, Bool-cases, inl, inr, length-append,
  append_assoc, append-nil,
}
use combine.Error.Types.{commit_ok, peek_ok, commit_err, peek_err}
use combine.Stream.Slice.{Slice, slice_stream}
use combine.Parser.Core.{Step, resume_mode}
use combine.Parser.Range.Take.{prefix, rest, step}
use combine.Parser.Range.Resume.{take_while-resumed, take_while-suspended}

module _ {T : Type 0} (size : ℕ) (f : T → Bool) where
  unfoldable pub concat : List (List T) → List T
  concat [] = []
  concat (c ∷ cs) = c ++ concat cs

  unfoldable pub add_chunk : Slice T → List T → Slice T
  add_chunk s c = record { pointer = s.pointer; items = s.items ++ c }

  -- Where the step asks for more, `more` goes on.
  on_more :
      (Slice T → ℕ → Run (Option (Step (slice_stream T size) (Slice T) ℕ)))
      → Step (slice_stream T size) (Slice T) ℕ
      → Run (Option (Step (slice_stream T size) (Slice T) ℕ))
  on_more more (commit_err e, s, d) = more s d
  on_more more (commit_ok x, s, d) = done (some (commit_ok x, s, d))
  on_more more (peek_ok x, s, d) = done (some (peek_ok x, s, d))
  on_more more (peek_err e, s, d) = done (some (peek_err e, s, d))

  unfoldable pub feed :
      List (List T) → Slice T → ℕ → Run (Option (Step (slice_stream T size) (Slice T) ℕ))
  unfolding add_chunk on_more
  feed [] s d = done none
  feed (c ∷ cs) s d = do r ← step size f resume_mode (add_chunk s c) d; on_more (feed cs) r

  pub take_while-more :
      (xs more : List T) (x : T) (ys : List T)
      → drop_while f xs ≡ x ∷ ys
      → take_while f (xs ++ more) ≡ take_while f xs
  take_while-more [] more x ys h = absurd cc
  take_while-more (y ∷ xs) more x ys h = elim (Bool-cases (f y)) [
    | inl passes ↦
        let e : drop_while f (y ∷ xs) ≡ drop_while f xs = rw passes refl in
        rw passes (ap (λ zs. y ∷ zs) (take_while-more xs more x ys (sym e ∙ h)))
    | inr fails ↦ rw fails
  ]

  pub drop_while-more :
      (xs more : List T) (x : T) (ys : List T)
      → drop_while f xs ≡ x ∷ ys
      → drop_while f (xs ++ more) ≡ drop_while f xs ++ more
  drop_while-more [] more x ys h = absurd cc
  drop_while-more (y ∷ xs) more x ys h = elim (Bool-cases (f y)) [
    | inl passes ↦
        let e : drop_while f (y ∷ xs) ≡ drop_while f xs = rw passes refl in
        rw passes (drop_while-more xs more x ys (sym e ∙ h))
    | inr fails ↦ rw fails
  ]

  pub passing-append :
      (xs more : List T) → drop_while f xs ≡ [] → length xs ≤ length (take_while f (xs ++ more))
  passing-append [] more h = omega arith
  passing-append (y ∷ xs) more h = elim (Bool-cases (f y)) [
    | inl passes ↦
        let e : drop_while f (y ∷ xs) ≡ drop_while f xs = rw passes refl in
        rw passes (omega (arith, passing-append xs more (sym e ∙ h)))
    | inr fails ↦
        let e : drop_while f (y ∷ xs) ≡ y ∷ xs = rw fails refl in absurd (full xs y (sym e ∙ h))
  ]
    where
      full : (zs : List T) (z : T) → ◌≡◌ {A = List T} (z ∷ zs) [] → ⊥
      full zs z h = cc

  some_left : (x : T) (xs : List T) → ◌≡◌ {A = List T} [] (x ∷ xs) → ⊥
  some_left x xs h = cc

  pub List-cases : (xs : List T) → (xs ≡ []) ⊎ ((x : T) × (ys : List T) × (xs ≡ x ∷ ys))
  List-cases [] = inl refl
  List-cases (x ∷ xs) = inr (x, xs, refl)

  -- However the input is cut, a run that has begun ends with the range that a parse of all of it gives,
  -- in the chunk that holds the first item that does not pass.
  pub take_while-fed :
      (cs : List (List T)) (s : Slice T) (x : T) (xs : List T)
      → 0 < length s.items
      → drop_while f s.items ≡ []
      → drop_while f (s.items ++ concat cs) ≡ x ∷ xs
      → (left : List T) × (feed cs s (length s.items)
          ≡ done (
              some (
                commit_ok (prefix size f (add_chunk s (concat cs))),
                record { pointer = (rest size f (add_chunk s (concat cs))).pointer; items = left },
                0,
              )))
  unfolding feed prefix rest concat
  take_while-fed [] s x xs some_read all_pass ends =
      absurd (some_left x xs (sym all_pass ∙ ap (drop_while f) (sym (append-nil s.items)) ∙ ends))
  take_while-fed (c ∷ cs) s x xs some_read all_pass ends =
      elim (List-cases (drop_while f (s.items ++ c))) [
        | inl none_left ↦
            let (left, ran) =
              take_while-fed cs (add_chunk s c) x xs
                (omega (arith, length-append s.items c, some_read)) none_left
                (ap (drop_while f) (append_assoc s.items c (concat cs)) ∙ ends) in
            let le : length s.items ≤ length (s.items ++ c) =
              omega (arith, length-append s.items c) in
            let asked = take_while-suspended size f (add_chunk s c) (length s.items) le none_left in
            (left, rw (asked, ← append_assoc s.items c (concat cs)) ran)
        | inr (y, ys, e) ↦
            let resumed =
              take_while-resumed size f (add_chunk s c) (length s.items) y ys some_read
                (passing-append s.items c all_pass) e in
            let same : take_while f (s.items ++ concat (c ∷ cs)) ≡ take_while f (s.items ++ c) =
              ap (take_while f) (sym (append_assoc s.items c (concat cs)))
              ∙ take_while-more (s.items ++ c) (concat cs) y ys e in
            (drop_while f (s.items ++ c), rw (resumed, same))
      ]
