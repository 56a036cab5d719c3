-- ===== src/Error/Types.antt =====
-- src/error.rs: the data types of results and errors. `ErrorOffset` is the `u8` of lib.rs that says
-- how many parsers of a sequence may still have errors to add.
use combine.Prelude.{ℕ, String, Result}

abbrev pub ErrorOffset : Type 0
ErrorOffset = ℕ

pub data Commit (A : Type 0) : Type 0 where
  commit : A → Commit A
  peek : A → Commit A

pub record Tracked (E : Type 0) : Type 0 where
  pub error : E
  pub offset : ErrorOffset

-- `Tracked::from`.
abbrev pub tracked : {E : Type 0} → E → Tracked E
tracked e = record { error = e; offset = 1 }

pub data ParseResult (A E : Type 0) : Type 0 where
  commit_ok : A → ParseResult A E
  peek_ok : A → ParseResult A E
  commit_err : E → ParseResult A E
  peek_err : Tracked E → ParseResult A E

-- `StdParseResult2<O, E>`.
abbrev pub StdParseResult : Type 0 → Type 0 → Type 0
StdParseResult A E = Result (A × Commit (Unit {0})) (Commit (Tracked E))

-- What an error tells of: a token, a range of tokens, or a text. `format` holds the text that the
-- value's `Display` gives.
pub data Info (T R : Type 0) : Type 0 where
  token : T → Info T R
  range : R → Info T R
  static : String → Info T R
  format : String → Info T R
