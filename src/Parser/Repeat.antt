-- ===== src/Parser/Repeat.antt =====
-- src/parser/repeat.rs: `Iter`, the loop under the repeating parsers, and those parsers.
pub mod Iter
pub mod Many
pub mod Count
pub mod SepBy
pub mod SepEnd
pub mod Chain
pub mod Until
pub mod Escaped
pub mod Iterate
mod Tests
