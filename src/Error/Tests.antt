-- ===== src/Error/Tests.antt =====
-- `and_then`, applied to results of numbers.
use combine.Prelude.{ℕ, ◌+◌, ◌≡◌, refl, Bool, true}
use combine.Error.Types.{ParseResult, commit_ok, commit_err, peek_err, tracked}
use combine.Error.ParseResult.{and_then}

-- A step that reads, and one that fails before it reads.
abbrev reads : ℕ → ParseResult ℕ Bool
reads n = commit_ok (n + 1)

abbrev fails : ℕ → ParseResult ℕ Bool
fails n = peek_err (tracked true)

-- Reading and then failing is a committed error.
reads-fails : and_then (reads 1) fails ≡ commit_err true
unfolding and_then
reads-fails = refl
