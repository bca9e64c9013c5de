-- ===== src/Strings.antt =====
-- src/utils/string_utils.cpp, `StringUtils`: one child for each group of functions.
pub mod Trim
pub mod Split
pub mod Number
pub mod Quote
pub mod Search
pub mod Pattern
pub mod Comments
pub mod Wildcard
pub mod Edit
pub mod Hex
pub mod Json
pub mod Chars
pub mod Signed
