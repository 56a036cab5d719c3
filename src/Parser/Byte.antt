-- ===== src/Parser/Byte.antt =====
-- src/parser/byte.rs: the parsers of bytes. A stream's token is a byte by its value `code`.
pub mod Num
pub mod Search
mod Tests
use combine.Prelude.{ℕ, Bool, ◌&&◌, ◌||◌, List, ◌==◌, leb}
use combine.Error.Types.{static, range}
use combine.Stream.Core.{Stream}
use combine.Parser.Core.{Parser}
use combine.Parser.Combinator
use combine.Parser.Combinator.{no_partial}
use combine.Parser.Report.{expected_parser}
use combine.Parser.Token.{satisfy, token_parser}
use combine.Parser.Tokens.{tokens_cmp}
use combine.Parser.Sequence.Build.{with}
use combine.Parser.Repeat.Count.{skip_many}
use combine.Parser.Char.{class, in_range}

-- The tests of `u8`.
abbrev pub is_ascii_uppercase : ℕ → Bool
is_ascii_uppercase c = in_range 65 90 c

abbrev pub is_ascii_lowercase : ℕ → Bool
is_ascii_lowercase c = in_range 97 122 c

abbrev pub is_ascii_digit : ℕ → Bool
is_ascii_digit c = in_range 48 57 c

abbrev pub is_ascii_alphabetic : ℕ → Bool
is_ascii_alphabetic c = is_ascii_uppercase c || is_ascii_lowercase c

abbrev pub is_ascii_whitespace : ℕ → Bool
is_ascii_whitespace c = c == 9 || c == 10 || c == 12 || c == 13 || c == 32

module _ (S : Stream) (code : S.Token → ℕ) where
  unfoldable pub byte : S.Token → Parser S S.Token
  unfolding token_parser
  byte c = token_parser S (λ a b. code a == code b) c

  unfoldable pub digit : Parser S S.Token
  unfolding class
  digit = class S (λ c. is_ascii_digit (code c)) "digit"

  unfoldable pub space : Parser S S.Token
  unfolding class
  space = class S (λ c. is_ascii_whitespace (code c)) "space"

  unfoldable pub spaces : ℕ → Parser S (Unit {0})
  unfolding expected_parser skip_many space
  spaces fuel = expected_parser (skip_many fuel space) (static "whitespaces")

  unfoldable pub newline : Parser S S.Token
  unfolding class
  newline = class S (λ c. code c == 10) "lf newline"

  unfoldable pub crlf : Parser S S.Token
  unfolding expected_parser no_partial satisfy with newline
  crlf =
      expected_parser (no_partial (with (satisfy S (λ c. code c == 13)) newline))
        (static "crlf newline")

  unfoldable pub tab : Parser S S.Token
  unfolding class
  tab = class S (λ c. code c == 9) "tab"

  unfoldable pub upper : Parser S S.Token
  unfolding class
  upper = class S (λ c. is_ascii_uppercase (code c)) "upper"

  unfoldable pub lower : Parser S S.Token
  unfolding class
  lower = class S (λ c. is_ascii_lowercase (code c)) "lower"

  unfoldable pub alpha_num : Parser S S.Token
  unfolding class
  alpha_num = class S (λ c. is_ascii_alphabetic (code c) || is_ascii_digit (code c)) "alpha_num"

  unfoldable pub letter : Parser S S.Token
  unfolding class
  letter = class S (λ c. is_ascii_alphabetic (code c)) "letter"

  unfoldable pub oct_digit : Parser S S.Token
  unfolding class
  oct_digit = class S (λ c. leb 48 (code c) && leb (code c) 55) "octal digit"

  unfoldable pub hex_digit : Parser S S.Token
  unfolding class
  hex_digit =
      class S (λ c. is_ascii_digit (code c) || in_range 65 70 (code c) || in_range 97 102 (code c))
        "hex_digit"

  -- `slice` is the range with the bytes `s`.
  unfoldable pub bytes_cmp : S.Range → List ℕ → (ℕ → ℕ → Bool) → Parser S S.Range
  unfolding tokens_cmp expected_parser Combinator.map
  bytes_cmp slice s cmp =
      expected_parser (Combinator.map (tokens_cmp S (λ l r. cmp l (code r)) s) (λ _. slice))
        (range slice)

  unfoldable pub bytes : S.Range → List ℕ → Parser S S.Range
  unfolding bytes_cmp
  bytes slice s = bytes_cmp slice s (λ l r. l == r)
