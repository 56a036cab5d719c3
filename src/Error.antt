-- ===== src/Error.antt =====
-- src/error.rs: how a parser's result says whether it committed to its input, and the two traits
-- through which parsers report errors.
pub mod Types
pub mod Commit
pub mod ParseResult
pub mod Laws
pub mod Traits
pub mod Unexpected
pub mod StringError
pub mod Tests
