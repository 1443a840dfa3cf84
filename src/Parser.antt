-- ===== src/Parser.antt =====
-- src/parser.cpp, include/parser.hpp. The position `mPos` in the fixed list `mTokens` is modelled by
-- the tokens from there on: `next` drops the first.
pub mod Classes
pub mod Expression
pub mod Program
pub mod Ends
pub mod Grammar
pub mod Numerals
pub mod Sound
pub mod Complete
pub mod Longest
pub mod Shape
pub mod Listing
pub mod Operands
pub mod Listed
pub mod Exact
pub mod Manual
pub mod Accepts
pub mod Reading
pub mod Newlines
