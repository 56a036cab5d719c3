-- ===== src/Stream/Slice.antt =====
-- src/stream/mod.rs: `&[T]` as a stream. A slice is its pointer and its items; `size` is the size of
-- an item in bytes, by which the pointer moves.
pub mod Closure
pub mod While
use combine.Prelude.{
  ℕ, zero, suc, ◌+◌, ◌-◌, ◌*◌, Bool, true, false, List, [], ◌∷◌, Option, some, none, Result, ok,
  err, Run, done, out_of_fuel, panicked, ◌>>=◌, length, get_elem?, take, drop, leb, ◌==◌,
  if◌then◌else◌,
}
use combine.Error.Types.{ParseResult, commit_ok, peek_err, tracked}
use combine.Error.Unexpected.{UnexpectedParse, eoi, unexpected, unexpected_parse_error}
use combine.Stream.Core.{Stream}

pub record Slice (T : Type 0) : Type 0 where
  pub pointer : ℕ
  pub items : List T

module _ {T : Type 0} (size : ℕ) where
  -- `split_at`, which panics past the end.
  unfoldable pub split_at : ℕ → Slice T → Run (Slice T × Slice T)
  split_at n s =
      if leb n (length s.items)
      then done (
        record { pointer = s.pointer; items = take n s.items },
        record { pointer = s.pointer + n * size; items = drop n s.items },
      )
      else panicked

  unfoldable pub uncons : Slice T → Result T UnexpectedParse × Slice T
  uncons s = elim s.items [
    | [] ↦ (err eoi, s)
    | first ∷ rest ↦ (ok first, record { pointer = s.pointer + size; items = rest })
  ]

  unfoldable pub uncons_range : ℕ → Slice T → Run (Result (Slice T) UnexpectedParse × Slice T)
  unfolding split_at
  uncons_range n s =
      let found : Run (Result (Slice T) UnexpectedParse × Slice T) = do
        (result, remaining) ← split_at n s
        done (ok result, remaining)
      in if leb n (length s.items) then found else done (err eoi, s)

  -- `end.len() - self.len()`, which panics below 0 where overflow is checked.
  unfoldable pub distance : Slice T → Slice T → Run ℕ
  distance self end =
      if leb (length self.items) (length end.items)
      then done (length end.items - length self.items)
      else panicked

-- `&[T]` as a `Stream`; a checkpoint is a copy of the slice.
abbrev pub slice_stream : Type 0 → ℕ → Stream
slice_stream T size = record {
  Input = Slice T;
  Token = T;
  Range = Slice T;
  Position = ℕ;
  StreamErrorFor = UnexpectedParse;
  Error = UnexpectedParse;
  Checkpoint = Slice T;
  parse_error = unexpected_parse_error T (Slice T) ℕ;
  uncons = uncons size;
  is_partial = λ _. false;
  position = λ s. s.pointer;
  eq_position = ◌==◌;
  checkpoint = λ s. s;
  reset = λ before _. (ok tt, before);
}

module _ {T : Type 0} (f : T → Bool) where
  -- `n` times the macro `check!`, an unchecked read at `i`: whether a test failed, and the new `i`.
  unfoldable pub check : ℕ → List T → ℕ → Run (Bool × ℕ)
  check zero items i = done (false, i)
  check (suc n) items i = elim (get_elem? items i) [
    | none ↦ panicked
    | some x ↦ elim (f x) [ true ↦ check n items (i + 1) | false ↦ done (true, i) ]
  ]

  -- `while len - i >= 8 { .. }`.
  unfoldable pub check_blocks : ℕ → List T → ℕ → Run (Bool × ℕ)
  unfolding check
  check_blocks zero items i = out_of_fuel
  check_blocks (suc fuel) items i =
      let block : Run (Bool × ℕ) = do
        (found, i') ← check 8 items i
        elim found [ true ↦ done (true, i') | false ↦ check_blocks fuel items i' ]
      in if leb 8 (length items - i) then block else done (false, i)

  -- `while let Some(c) = slice.get(i) { .. }`.
  unfoldable pub check_rest : ℕ → List T → ℕ → Run ℕ
  check_rest zero items i = out_of_fuel
  check_rest (suc fuel) items i = elim (get_elem? items i) [
    | none ↦ done i
    | some x ↦ elim (f x) [ true ↦ check_rest fuel items (i + 1) | false ↦ done i ]
  ]

  unfoldable pub slice_uncons_while : ℕ → ℕ → Slice T → ℕ → Run (Slice T × Slice T)
  unfolding check_blocks check_rest split_at
  slice_uncons_while size fuel s i = do
    (found, i₁) ← check_blocks fuel s.items i
    i₂ ← if found then done i₁ else check_rest fuel s.items i₁
    split_at size i₂ s

  -- `uncons_while1`: its error is a `UnexpectedParse`, the stream's error.
  unfoldable pub slice_uncons_while1 :
      ℕ → ℕ → Slice T → Run (ParseResult (Slice T) UnexpectedParse × Slice T)
  unfolding slice_uncons_while
  slice_uncons_while1 size fuel s =
      let found : Run (ParseResult (Slice T) UnexpectedParse × Slice T) = do
        (result, rest) ← slice_uncons_while size fuel s 1
        done (commit_ok result, rest)
      in let refused = done (peek_err (tracked unexpected), s) in
        elim s.items [ [] ↦ refused | x ∷ _ ↦ if f x then found else refused ]
