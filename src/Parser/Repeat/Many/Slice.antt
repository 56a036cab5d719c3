-- ===== src/Parser/Repeat/Many/Slice.antt =====
-- src/parser/repeat.rs, token.rs and src/stream/mod.rs together: `many(satisfy(f))` over a slice
-- reads the longest prefix whose items pass `f`.
use combine.Prelude.{
  ℕ, zero, suc, ◌+◌, ◌*◌, ◌<◌, ◌≡◌, refl, ap, ◌∙◌, Bool, true, false, List, [], ◌∷◌, ◌++◌,
  append-nil, append_assoc, some, none, Run, done, ◌>>=◌, bind_assoc, Bool-cases, inl, inr, length,
  take_while, drop_while, arith, if◌then◌else◌,
}
use combine.Stream.Slice.{Slice, slice_stream, uncons}
use combine.Parser.Core.{Parser, Outcome, first_mode}
use combine.Parser.Core.Fresh.{parse_fresh}
use combine.Parser.Token.{satisfy}
use combine.Parser.Repeat.Iter.{
  vec, Iter, stopped, iter_from, next, drain, into_result_fast, ok_value,
}
use combine.Parser.Repeat.Many.{many}

unfoldable pub is_nonempty : {T : Type 0} → List T → Bool
is_nonempty [] = false
is_nonempty (x ∷ xs) = true

module _ {T : Type 0} (size : ℕ) (f : T → Bool) where
  abbrev item : Parser (slice_stream T size) T
  item = satisfy (slice_stream T size) f

  -- What a slice is after the items that pass.
  unfoldable pub behind : Slice T → Slice T
  behind s = record {
    pointer = s.pointer + length (take_while f s.items) * size;
    items = drop_while f s.items;
  }

  at : ℕ → List T → Slice T
  at pointer items = record { pointer = pointer; items = items }

  -- The loop after a round that gave nothing.
  halted : Bool → Slice T → Iter (slice_stream T size) item.PartialState
  halted b s = record (iter_from {S = slice_stream T size} b first_mode s item.default) {
    state = stopped;
  }

  next-end :
      (b : Bool) (pointer : ℕ)
      → next item (iter_from b first_mode (at pointer []) item.default)
        ≡ done (none, halted b (at pointer []))
  unfolding next satisfy at halted uncons
  next-end b pointer = refl

  module _ (b : Bool) (pointer : ℕ) (x : T) (items : List T) where
    next-pass :
        f x ≡ true
        → next item (iter_from b first_mode (at pointer (x ∷ items)) item.default)
          ≡ done (some x, iter_from true first_mode (at (pointer + size) items) item.default)
    unfolding next satisfy at uncons
    next-pass passes = rw passes

    next-fail :
        f x ≡ false
        → next item (iter_from b first_mode (at pointer (x ∷ items)) item.default)
          ≡ done (none, halted b (at pointer (x ∷ items)))
    unfolding next satisfy at halted uncons
    next-fail fails = rw fails

  -- The loop's outcome, started with `b` for whether it has committed.
  DrainSpec : ℕ → List T → Bool → Slice T → Type 0
  DrainSpec fuel elements b s =
      drain (vec T) fuel item elements (iter_from b first_mode s item.default)
      ≡ done (
        elements ++ take_while f s.items,
        halted (if is_nonempty (take_while f s.items) then true else b) (behind s),
      )

  behind-pass :
      (pointer : ℕ) (x : T) (items : List T)
      → f x ≡ true
      → behind (at pointer (x ∷ items)) ≡ behind (at (pointer + size) items)
  unfolding behind at
  behind-pass pointer x items passes =
      rw passes (ap (λ n. record { pointer = n; items = drop_while f items }) (grind arith))

  behind-stay :
      (pointer : ℕ) (items : List T)
      → take_while f items ≡ []
      → drop_while f items ≡ items
      → behind (at pointer items) ≡ at pointer items
  unfolding behind at
  behind-stay pointer items none_pass same =
      rw (none_pass, same) (ap (λ n. record { pointer = n; items = items }) (omega arith))

  if_same : (b : Bool) → (if b then true else true) ≡ true
  if_same true = refl
  if_same false = refl

  -- The outcome of the loop, from what it read.
  outcome : List T → Bool → Slice T → Run (List T × Iter (slice_stream T size) item.PartialState)
  outcome elements b s = done (elements, halted b s)

  drain-satisfy :
      (fuel : ℕ) (elements : List T) (b : Bool) (pointer : ℕ) (items : List T)
      → length items < fuel
      → DrainSpec fuel elements b (at pointer items)
  unfolding DrainSpec drain is_nonempty
  drain-satisfy zero elements b pointer items h = absurd (omega arith)
  drain-satisfy (suc fuel) elements b pointer [] h =
      unfold at in rw (next-end b pointer, append-nil, behind-stay pointer [] refl refl)
  drain-satisfy (suc fuel) elements b pointer (x ∷ items) h = elim (Bool-cases (f x)) [
    | inl passes ↦ rw (next-pass b pointer x items passes) (
        drain-satisfy fuel (elements ++ x ∷ []) true (pointer + size) items (omega arith)
        ∙ (unfold at outcome in
            rw (passes, if_same, behind-pass pointer x items passes, append_assoc)))
    | inr fails ↦
        rw (next-fail b pointer x items fails) (
          unfold at in
          rw (fails, append-nil, behind-stay pointer (x ∷ items) (rw fails) (rw fails)))
  ]

  if_id : (b : Bool) → (if b then true else false) ≡ b
  if_id true = refl
  if_id false = refl

  finish :
      Run (List T × Iter (slice_stream T size) item.PartialState)
      → Run (Outcome (slice_stream T size) (List T))
  unfolding into_result_fast
  finish m = do (elements, it) ← m; let (r, _) = into_result_fast [] elements it; done (r, it.input)

  finish-many :
      (fuel : ℕ) (s : Slice T)
      → parse_fresh (many (vec T) fuel item) s
        ≡ finish (drain (vec T) fuel item [] (iter_from false first_mode s item.default))
  unfolding finish parse_fresh many
  finish-many fuel s =
      bind_assoc (drain (vec T) fuel item [] (iter_from false first_mode s item.default)) _ _

  finish-halted :
      (elements : List T) (b : Bool) (s : Slice T)
      → finish (done (elements, halted b s)) ≡ done (ok_value b elements, s)
  unfolding finish halted
  finish-halted elements b s = refl

  -- `many(satisfy(f))` on a slice gives the longest prefix whose items pass `f`, leaves the slice
  -- behind it, and has committed where the prefix is not empty, if the fuel exceeds the length.
  pub many-satisfy :
      (fuel : ℕ) (s : Slice T)
      → length s.items < fuel
      → parse_fresh (many (vec T) fuel item) s
        ≡ done (ok_value (is_nonempty (take_while f s.items)) (take_while f s.items), behind s)
  unfolding DrainSpec at
  many-satisfy fuel s h =
      finish-many fuel s
      ∙ ap finish (drain-satisfy fuel [] false s.pointer s.items h)
      ∙ finish-halted (take_while f s.items) _ (behind s)
      ∙ ap (λ b. done (ok_value b (take_while f s.items), behind s))
          (if_id (is_nonempty (take_while f s.items)))
