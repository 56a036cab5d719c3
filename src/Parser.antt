-- ===== src/Parser.antt =====
-- src/parser/: the trait `Parser` and the parsers.
pub mod Core
pub mod Function
pub mod Token
pub mod Tokens
pub mod Combinator
pub mod Repeat
pub mod Choice
pub mod Sequence
pub mod Report
pub mod Range
pub mod Decode
pub mod Char
pub mod Byte
pub mod Macro
pub mod Regex
pub mod Tests
