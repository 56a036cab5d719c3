-- ===== src/Error/Laws.antt =====
-- Laws of src/error.rs: `and_then` is a monad that keeps a commitment, and the two representations
-- of a result agree.
use combine.Prelude.{◌≡◌, refl, sym, ok, err}
use combine.Error.Types.{
  Commit, commit, peek, ParseResult, commit_ok, peek_ok, commit_err, peek_err, StdParseResult,
}
use combine.Error.Commit.{combine_std, combine_commit, committed_result, committed_std}
use combine.Error.ParseResult.{and_then, into_result, from}

committed_result_idem :
    {A E : Type 0} (r : ParseResult A E)
    → committed_result (committed_result r) ≡ committed_result r
unfolding committed_result
committed_result_idem (commit_ok v) = refl
committed_result_idem (peek_ok v) = refl
committed_result_idem (commit_err e) = refl
committed_result_idem (peek_err e) = refl

committed_result-and_then :
    {A B E : Type 0} (r : ParseResult A E) (f : A → ParseResult B E)
    → and_then (committed_result r) f ≡ committed_result (and_then r f)
unfolding and_then
committed_result-and_then (commit_ok a) f = sym (committed_result_idem (f a))
committed_result-and_then (peek_ok a) f = refl
committed_result-and_then (commit_err e) f = refl
committed_result-and_then (peek_err e) f = refl

-- Sequencing results with `and_then` is associative: neither the value, the error nor the
-- commitment depends on how three steps are grouped.
pub and_then_assoc :
    {A B C E : Type 0} (r : ParseResult A E) (f : A → ParseResult B E) (g : B → ParseResult C E)
    → and_then (and_then r f) g ≡ and_then r (λ a. and_then (f a) g)
unfolding and_then
and_then_assoc (commit_ok a) f g = committed_result-and_then (f a) g
and_then_assoc (peek_ok a) f g = refl
and_then_assoc (commit_err e) f g = refl
and_then_assoc (peek_err e) f g = refl

-- A result turned into the standard form and back is unchanged.
pub from-into_result : {A E : Type 0} (r : ParseResult A E) → from (into_result r) ≡ r
unfolding from into_result
from-into_result (commit_ok t) = refl
from-into_result (peek_ok t) = refl
from-into_result (commit_err e) = refl
from-into_result (peek_err e) = refl

-- `combine_commit` on results does what `combine` does on the standard form.
pub combine_commit-from :
    {A B E : Type 0} (c : Commit A) (f : A → StdParseResult B E)
    → combine_commit c (λ a. from (f a)) ≡ from (combine_std c f)
unfolding combine_std combine_commit from
combine_commit-from (peek x) f = refl
combine_commit-from (commit x) f = go (f x)
  where
    go :
        {B E : Type 0} (s : StdParseResult B E) → committed_result (from s) ≡ from (committed_std s)
    go (ok (v, peek u)) = refl
    go (ok (v, commit u)) = refl
    go (err (peek e)) = refl
    go (err (commit e)) = refl
