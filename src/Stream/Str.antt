-- ===== src/Stream/Str.antt =====
-- src/stream/mod.rs: `&str` as a stream. A string is its pointer and its characters, each the number
-- of its code point; `encode` is UTF-8, in which `len`, `split_at` and `as_bytes` measure it.
pub mod Boundary
pub mod While
pub mod Lawful
mod Tests
use Prim.Native.Nat.{◌/◌, ◌%◌}
use combine.Prelude.{
  ℕ, zero, suc, ◌+◌, ◌-◌, Bool, true, false, ◌||◌, List, [], ◌∷◌, ◌++◌, Option, some, none, Result,
  ok, err, Run, done, panicked, ◌>>=◌, length, get_elem?, ltb, leb, ◌==◌, if◌then◌else◌,
}
use combine.Error.Types.{ParseResult, commit_ok, peek_err, tracked}
use combine.Error.StringError.{
  StringStreamError, unexpected_parse, eoi, character_boundary, string_parse_error,
}
use combine.Stream.Core.{Stream}
use combine.Stream.Range.{RangeStream}

pub record Str : Type 0 where
  pub pointer : ℕ
  pub chars : List ℕ

unfoldable pub encode : ℕ → List ℕ
encode c =
    if ltb c 128
    then c ∷ []
    else if ltb c 2048
    then (192 + c / 64) ∷ (128 + c % 64) ∷ []
    else if ltb c 65536
    then (224 + c / 4096) ∷ (128 + (c / 64) % 64) ∷ (128 + c % 64) ∷ []
    else (240 + c / 262144) ∷ (128 + (c / 4096) % 64) ∷ (128 + (c / 64) % 64) ∷ (128 + c % 64) ∷ []

-- `char::len_utf8`, `str::as_bytes` and `str::len`.
unfoldable pub len_utf8 : ℕ → ℕ
len_utf8 c = if ltb c 128 then 1 else if ltb c 2048 then 2 else if ltb c 65536 then 3 else 4

unfoldable pub as_bytes : List ℕ → List ℕ
unfolding encode
as_bytes [] = []
as_bytes (c ∷ cs) = encode c ++ as_bytes cs

unfoldable pub str_len : List ℕ → ℕ
unfolding len_utf8
str_len [] = 0
str_len (c ∷ cs) = len_utf8 c + str_len cs

-- The characters before and behind a number of bytes, where it is the end of a character.
abbrev pub with_char : ℕ → Option (List ℕ × List ℕ) → Option (List ℕ × List ℕ)
with_char c none = none
with_char c (some (l, r)) = some (c ∷ l, r)

unfoldable pub split_chars : ℕ → List ℕ → Option (List ℕ × List ℕ)
unfolding len_utf8
split_chars zero cs = some ([], cs)
split_chars (suc n) [] = none
split_chars (suc n) (c ∷ cs) =
    let rest = split_chars (suc n - len_utf8 c) cs in
    if leb (len_utf8 c) (suc n) then with_char c rest else none

abbrev pub halves : Str → ℕ → Option (List ℕ × List ℕ) → Run (Str × Str)
halves s n none = panicked
halves s n (some (l, r)) =
    done (record { pointer = s.pointer; chars = l }, record { pointer = s.pointer + n; chars = r })

-- `split_at`, which panics inside a character and past the end.
unfoldable pub split_at : ℕ → Str → Run (Str × Str)
unfolding split_chars
split_at n s = halves s n (split_chars n s.chars)

unfoldable pub uncons : Str → Result ℕ StringStreamError × Str
unfolding len_utf8
uncons s = elim s.chars [
  | [] ↦ (err eoi, s)
  | c ∷ cs ↦ (ok c, record { pointer = s.pointer + len_utf8 c; chars = cs })
]

unfoldable pub is_boundary_byte : Option ℕ → Bool
is_boundary_byte none = false
is_boundary_byte (some b) = ltb b 128 || leb 192 b

-- The function inside `uncons_range`.
unfoldable pub is_char_boundary : List ℕ → ℕ → Bool
unfolding str_len as_bytes is_boundary_byte
is_char_boundary cs index =
    if index == str_len cs then true else is_boundary_byte (get_elem? (as_bytes cs) index)

unfoldable pub uncons_range : ℕ → Str → Run (Result Str StringStreamError × Str)
unfolding is_char_boundary split_at str_len
uncons_range size s =
    let found : Run (Result Str StringStreamError × Str) = do
      (result, remaining) ← split_at size s
      done (ok result, remaining)
    in if leb size (str_len s.chars)
      then if is_char_boundary s.chars size then found else done (err character_boundary, s)
      else done (err eoi, s)

-- The difference of the pointers, which panics below 0.
unfoldable pub distance : Str → Str → Run ℕ
distance self end =
    if leb end.pointer self.pointer then done (self.pointer - end.pointer) else panicked

-- The loop over `chars`, unrolled in the program: what is left of them, and `last_char_size`.
unfoldable pub test_next : (ℕ → Bool) → List ℕ → List ℕ × ℕ
unfolding len_utf8
test_next f [] = ([], 0)
test_next f (c ∷ cs) = let rest = test_next f cs in if f c then rest else (cs, len_utf8 c)

unfoldable pub str_uncons_while : (ℕ → Bool) → Str → List ℕ → Run (Str × Str)
unfolding test_next str_len split_at
str_uncons_while f slice chars =
    let (rest, last_char_size) = test_next f chars in
    split_at (str_len slice.chars - str_len rest - last_char_size) slice

unfoldable pub uncons_while : (ℕ → Bool) → Str → Run (Result Str StringStreamError × Str)
unfolding str_uncons_while
uncons_while f s = do (result, rest) ← str_uncons_while f s s.chars; done (ok result, rest)

unfoldable pub uncons_while1 : (ℕ → Bool) → Str → Run (ParseResult Str StringStreamError × Str)
unfolding str_uncons_while
uncons_while1 f s =
    let refused : Run (ParseResult Str StringStreamError × Str) =
      done (peek_err (tracked unexpected_parse), s) in
    elim s.chars [
      | [] ↦ refused
      | c ∷ cs ↦
          let found : Run (ParseResult Str StringStreamError × Str) = do
            (result, rest) ← str_uncons_while f s cs
            done (commit_ok result, rest)
          in if f c then found else refused
    ]

abbrev pub str_stream : Stream
str_stream = record {
  Input = Str;
  Token = ℕ;
  Range = Str;
  Position = ℕ;
  StreamErrorFor = StringStreamError;
  Error = StringStreamError;
  Checkpoint = Str;
  parse_error = string_parse_error ℕ Str ℕ;
  uncons = uncons;
  is_partial = λ _. false;
  position = λ s. s.pointer;
  eq_position = ◌==◌;
  checkpoint = λ s. s;
  reset = λ before _. (ok tt, before);
}

abbrev pub strs : RangeStream
strs = record {
  stream = str_stream;
  uncons_range = uncons_range;
  uncons_while = uncons_while;
  uncons_while1 = uncons_while1;
  distance = distance;
  range = λ s. s;
  len = λ s. str_len s.chars;
}
