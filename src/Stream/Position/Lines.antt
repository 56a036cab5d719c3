-- ===== src/Stream/Position/Lines.antt =====
-- src/stream/position.rs: the line and the column at which a source position arrives.
use Prim.Native.Nat.{◌%◌}
use combine.Prelude.{
  ℕ, suc, ◌+◌, ◌<◌, ◌≤◌, ◌≡◌, refl, ap, ◌∙◌, true, false, List, [], ◌∷◌, ◌++◌, length, arith, ◌==◌,
  if◌then◌else◌, Bool-cases, inl, inr,
}
use combine.Stream.Position.{newline, SourcePosition, update, update_range}

-- How many of the tokens end a line.
unfoldable pub newlines : List ℕ → ℕ
newlines [] = 0
newlines (c ∷ cs) = if c == newline then suc (newlines cs) else newlines cs

mod_small : (n : ℕ) → n < 4294967296 → n % 4294967296 ≡ n
mod_small n h = omega arith

update-newline :
    (c : ℕ) (p : SourcePosition)
    → (c == newline) ≡ true
    → p.line + 1 < 4294967296
    → update c p ≡ record { line = p.line + 1; column = 1 }
unfolding update
update-newline c p ends h = rw (ends, mod_small (p.line + 1) h)

update-other :
    (c : ℕ) (p : SourcePosition)
    → (c == newline) ≡ false
    → update c p ≡ record { line = p.line; column = (p.column + 1) % 4294967296 }
unfolding update
update-other c p stays = rw stays

update_range-append :
    (xs ys : List ℕ) (p : SourcePosition)
    → update_range (xs ++ ys) p ≡ update_range ys (update_range xs p)
unfolding update_range
update_range-append [] ys p = refl
update_range-append (x ∷ xs) ys p = update_range-append xs ys (update x p)

line-update_range :
    (cs : List ℕ) (p : SourcePosition)
    → p.line + length cs < 4294967296
    → (update_range cs p).line ≡ p.line + newlines cs
unfolding update_range newlines
line-update_range [] p h = omega arith
line-update_range (c ∷ cs) p h = elim (Bool-cases (c == newline)) [
  | inl ends ↦
      ap (λ q. (update_range cs q).line) (update-newline c p ends (omega arith))
      ∙ line-update_range cs (record { line = p.line + 1; column = 1 }) (omega arith)
      ∙ rw ends (omega arith)
  | inr stays ↦
      ap (λ q. (update_range cs q).line) (update-other c p stays)
      ∙ line-update_range cs (record { line = p.line; column = (p.column + 1) % 4294967296 })
          (omega arith)
      ∙ rw stays refl
]

-- No token ends a line.
unfoldable pub IsLine : List ℕ → Type 0
IsLine [] = Unit
IsLine (c ∷ cs) = ((c == newline) ≡ false) × IsLine cs

column-update_range :
    (cs : List ℕ) (p : SourcePosition)
    → IsLine cs
    → p.column + length cs < 4294967296
    → (update_range cs p).column ≡ p.column + length cs
unfolding update_range IsLine
column-update_range [] p stays h = omega arith
column-update_range (c ∷ cs) p (other, stays) h =
    ap (λ q. (update_range cs q).column)
      (update-other c p other
        ∙ ap (λ n. record { line = p.line; column = n }) (mod_small (p.column + 1) (omega arith)))
    ∙ column-update_range cs (record { line = p.line; column = p.column + 1 }) stays (omega arith)
    ∙ omega arith

newlines-le : (cs : List ℕ) → newlines cs ≤ length cs
unfolding newlines
newlines-le [] = omega arith
newlines-le (c ∷ cs) = elim (Bool-cases (c == newline)) [
  | inl ends ↦ rw ends (omega (arith, newlines-le cs))
  | inr stays ↦ rw stays (omega (arith, newlines-le cs))
]

newlines-IsLine : (cs : List ℕ) → IsLine cs → newlines cs ≡ 0
unfolding newlines IsLine
newlines-IsLine [] stays = refl
newlines-IsLine (c ∷ cs) (other, stays) = rw other (newlines-IsLine cs stays)

both :
    (p : SourcePosition) (line column : ℕ)
    → p.line ≡ line
    → p.column ≡ column
    → p ≡ record { line = line; column = column }
both p line column same_line same_column =
    λ i. record { line = same_line i; column = same_column i }

-- The part of a line, from its start.
last_line :
    (line : List ℕ) (n : ℕ)
    → IsLine line
    → n + length line + 1 < 4294967296
    → update_range line (record { line = n; column = 1 })
      ≡ record { line = n; column = 1 + length line }
last_line line n stays h =
    both (update_range line (record { line = n; column = 1 })) n (1 + length line)
      (line-update_range line (record { line = n; column = 1 }) (omega arith)
        ∙ omega (arith, newlines-IsLine line stays))
      (column-update_range line (record { line = n; column = 1 }) stays (omega arith))

-- A source position that has passed some tokens, the end of a line and then a part of a line, below
-- the largest `i32`, is at the line that the ends of lines count from its own, and at the column that
-- the part of a line counts from 1.
pub update_range-lines :
    (before line : List ℕ) (p : SourcePosition)
    → IsLine line
    → p.line + length before + length line + 2 < 2147483648
    → update_range (before ++ newline ∷ line) p
      ≡ record { line = p.line + newlines before + 1; column = 1 + length line }
unfolding update_range
update_range-lines before line p stays h =
    let counted : (update_range before p).line ≡ p.line + newlines before =
      line-update_range before p (omega arith) in
    let few : newlines before ≤ length before = newlines-le before in
    update_range-append before (newline ∷ line) p
    ∙ ap (update_range line) (
        update-newline newline (update_range before p) refl (omega (arith, counted, few))
        ∙ ap (λ n. record { line = n + 1; column = 1 }) counted)
    ∙ last_line line (p.line + newlines before + 1) stays (omega (arith, few))
