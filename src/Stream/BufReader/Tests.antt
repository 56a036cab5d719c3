-- ===== src/Stream/BufReader/Tests.antt =====
-- The theorems on buffers, applied to a buffer of room for two bytes at a time.
use combine.Prelude.{
  ℕ, zero, suc, ◌≤◌, ◌<◌, ◌≡◌, refl, sym, ap, subst, true, List, [], ◌∷◌, ◌++◌, Result, ok, err,
  done, panicked, length, take, drop, take-append-drop, length-take-le, none-taken, arith, leb,
  le→leb, if◌then◌else◌, Option, some, none, Returns,
}
use combine.Stream.Bytes.{BytesMut, IsBytesMut, Read, IsSource, NeverFails}
use combine.Stream.BufReader.{BufReader, bufferless}
use combine.Stream.BufReader.Contract.{IsLawful, bufferless-IsLawful}
use combine.Stream.BufReader.Blocking.{read, Gives, read-Gives}
use combine.Stream.BufReader.Awaited.{Poll, ready, pending, AsyncRead}
use combine.Stream.BufReader.Awaited.Contract.{IsAsyncSource, polled_buffer, awaited-IsLawful}

abbrev pub two_bytes : BytesMut
two_bytes = record {
  Self = List ℕ;
  contents = λ b. b;
  as_ptr = λ b. 100;
  default = [];
  with_capacity = λ n. [];
  has_remaining_mut = λ b. true;
  reserve = λ n b. b;
  bytes_mut = λ b. (2, b);
  advance_mut = λ xs b. b ++ xs;
  advance = λ n b. if leb n (length b) then done (drop n b) else panicked;
  clear = λ b. [];
}

pub two_bytes-IsBytesMut : IsBytesMut two_bytes
two_bytes-IsBytesMut = record {
  contents-default = refl;
  contents-reserve = λ n b. refl;
  contents-bytes_mut = λ b. refl;
  contents-advance_mut = λ xs b fits. refl;
  contents-advance = λ n b fits. (drop n b, rw (le→leb n (length b) fits) refl, refl);
  has_remaining_mut-bytes_mut = λ b. refl;
  bytes_mut_pos = λ b room. omega arith;
  has_remaining_mut-reserve = λ n b pos. refl;
}

-- A reader of a list.
abbrev pub list_reader : Read (Unit {0})
list_reader = record { Self = List ℕ; read = λ n r. (ok (take n r), drop n r) }

ok-injective : {A E : Type 0} {a b : A} → ◌≡◌ {A = Result A E} (ok a) (ok b) → a ≡ b
ok-injective {A} {E} {a} h = ap value h
  where
    value : Result A E → A
    value (ok x) = x
    value (err e) = a

list_given :
    (n : ℕ) (r r' xs : List ℕ)
    → ◌≡◌ {A = Result (List ℕ) (Unit {0}) × List ℕ} (ok (take n r), drop n r) (ok xs, r')
    → (r ≡ xs ++ r') × (length xs ≤ n)
list_given n r r' xs h =
    let taken : take n r ≡ xs = ok-injective (ap (λ x. x.0) h) in
    let left : drop n r ≡ r' = ap (λ x. x.1) h in
    (rw (← taken, ← left) (sym (take-append-drop n r)), rw (← taken) (length-take-le n r))

pub list_reader-IsSource : IsSource list_reader (λ r. r)
list_reader-IsSource = record {
  given = list_given;
  failed = λ n r r' e h. cc;
  ended = λ n r r' pos h. none-taken n r pos (ap length (ok-injective (ap (λ x. x.0) h)));
}

pub list_reader-NeverFails : NeverFails list_reader
list_reader-NeverFails n r = (take n r, drop n r, refl)

bufferless-IsLawful_example : IsLawful (bufferless two_bytes list_reader) (λ r. r.inner)
bufferless-IsLawful_example = bufferless-IsLawful two_bytes-IsBytesMut list_reader-IsSource

abbrev half_read : BufReader (List ℕ) (List ℕ)
half_read = record { inner = 3 ∷ 4 ∷ []; buf = 1 ∷ 2 ∷ [] }

read-Gives_example :
    Returns
      (Gives two_bytes list_reader (λ r. r) 1 half_read)
      (read two_bytes list_reader 1 1 half_read)
read-Gives_example = read-Gives two_bytes-IsBytesMut list_reader-IsSource 0 1 half_read refl

-- A reader of single bytes, which has none yet where the list has none.
abbrev pub poll_byte : ℕ → List (Option ℕ) → Poll (Result (List ℕ) (Unit {0})) × List (Option ℕ)
poll_byte n [] = (ready (ok []), [])
poll_byte n (none ∷ r) = (pending, r)
poll_byte zero (some x ∷ r) = (ready (ok []), some x ∷ r)
poll_byte (suc n) (some x ∷ r) = (ready (ok (x ∷ [])), r)

abbrev pub present : List (Option ℕ) → List ℕ
present [] = []
present (none ∷ r) = present r
present (some x ∷ r) = x ∷ present r

abbrev poll_bytes :
    List ℕ
    → Poll (Result (List ℕ) (Unit {0})) × List (Option ℕ)
    → Poll (Result ℕ (Unit {0})) × (List ℕ × List (Option ℕ))
poll_bytes b (pending, r) = (pending, (b, r))
poll_bytes b (ready (ok xs), r) = (ready (ok (length xs)), (b ++ xs, r))
poll_bytes b (ready (err e), r) = (ready (err e), (b, r))

abbrev pub slow_reader : AsyncRead two_bytes (Unit {0})
slow_reader = record {
  Self = List (Option ℕ);
  poll_read = poll_byte;
  poll_read_buf = λ b r. poll_bytes b (poll_byte 2 r);
}

-- What a poll has given.
abbrev Given : ℕ → List (Option ℕ) → Poll (Result (List ℕ) (Unit {0})) × List (Option ℕ) → Type 0
Given n r (pending, r') = (present r' ≡ present r) × (length r' < length r)
Given n r (ready (err e), r') = present r' ≡ present r
Given n r (ready (ok xs), r') =
    (present r ≡ xs ++ present r') × (length xs ≤ n) × (0 < n → xs ≡ [] → present r ≡ [])

poll_byte-Given : (n : ℕ) (r : List (Option ℕ)) → Given n r (poll_byte n r)
poll_byte-Given n [] = (refl, omega arith, λ pos h. refl)
poll_byte-Given n (none ∷ r) = (refl, omega arith)
poll_byte-Given zero (some x ∷ r) = (refl, omega arith, λ pos h. absurd (omega (arith, pos)))
poll_byte-Given (suc n) (some x ∷ r) = (refl, omega arith, λ pos h. cc)

slow_reader-IsAsyncSource : IsAsyncSource slow_reader present length
slow_reader-IsAsyncSource = record {
  given = λ n r r' xs h. let good = subst (Given n r) h (poll_byte-Given n r) in (good.0, good.1);
  failed = λ n r r' e h. subst (Given n r) h (poll_byte-Given n r);
  waits = λ n r r' h. subst (Given n r) h (poll_byte-Given n r);
  ended = λ n r r' pos h. (subst (Given n r) h (poll_byte-Given n r)).2 pos refl;
}

awaited-IsLawful_example : IsLawful (polled_buffer slow_reader length) present
awaited-IsLawful_example = awaited-IsLawful two_bytes-IsBytesMut slow_reader-IsAsyncSource
