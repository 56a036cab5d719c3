-- ===== src/Parser/Repeat/SepBy/Resume.antt =====
-- src/parser/repeat.rs: what `sep_by1` keeps for the call that resumes it.
use combine.Prelude.{
  ◌≡◌, refl, subst, ℕ, Bool, true, false, Option, none, done, if◌then◌else◌, Ensures, Ensures-bind,
}
use combine.Error.Types.{
  Commit, commit, peek, ParseResult, commit_ok, peek_ok, commit_err, peek_err,
}
use combine.Stream.Core.{Stream}
use combine.Parser.Core.{Parser, ParseMode, Step, parse_mode}
use combine.Parser.Sequence.Build.{with}
use combine.Parser.Repeat.Iter.{Collection, drain, iter_from}
use combine.Parser.Repeat.SepBy.{SepBy1State, sep_by1_rest, sep_by1_first, sep_by1_step, second}

module _ {S : Stream} {A B F : Type 0} (c : Collection A F) (fuel : ℕ) (p : Parser S A)
    (separator : Parser S B) where
  -- The state that is kept does not say that the first item is in.
  Forgets : Step S F (SepBy1State F (with separator p).PartialState) → Type 0
  Forgets x = x.2.parsed_one ≡ none

  if-none : (b : Bool) (o : Option (Commit (Unit {0}))) → o ≡ none → (if b then none else o) ≡ none
  if-none true o h = refl
  if-none false o h = h

  rest-Forgets :
      (mode : ParseMode) (input : S.Input) (st : SepBy1State F (with separator p).PartialState)
      → (rest : Commit (Unit {0})) → st.parsed_one ≡ none
      → Ensures Forgets (sep_by1_rest c fuel p separator mode input st rest)
  unfolding sep_by1_rest Forgets
  rest-Forgets mode input st rest h =
      Ensures-bind Forgets
        (drain c fuel (with separator p) st.elements (iter_from false mode input st.child)) _
        λ x. if-none _ st.parsed_one h

  first-Forgets :
      (mode : ParseMode) (st : SepBy1State F (with separator p).PartialState)
      → (r : Step S A p.PartialState) → st.parsed_one ≡ none
      → Ensures Forgets (sep_by1_first c fuel p separator mode st r)
  unfolding sep_by1_first Forgets
  first-Forgets mode st (commit_ok x, input, child) h = rest-Forgets mode input _ (commit tt) h
  first-Forgets mode st (peek_ok x, input, child) h = rest-Forgets mode input _ (peek tt) h
  first-Forgets mode st (commit_err e, input, child) h = h
  first-Forgets mode st (peek_err e, input, child) h = h

  -- `sep_by1`, started in a state where `parsed_one` is not set, never sets it, also where it stops
  -- after its first item and is to be resumed.
  pub sep_by1_step-parsed_one :
      (mode : ParseMode) (input input' : S.Input)
      → (st st' : SepBy1State F (with separator p).PartialState) (r : ParseResult F S.Error)
      → st.parsed_one ≡ none
      → sep_by1_step c fuel p separator mode input st ≡ done (r, input', st')
      → st'.parsed_one ≡ none
  unfolding sep_by1_step Forgets
  sep_by1_step-parsed_one mode input input' st st' r h ran = subst (Ensures Forgets) ran (
      rw h (
        Ensures-bind Forgets (parse_mode p mode input (second c fuel p separator st.child)) _
          λ x. first-Forgets mode (record st { parsed_one = none }) x refl))
