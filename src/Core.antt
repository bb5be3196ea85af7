-- ===== src/Core.antt =====
-- core and config/schema (below src): what every part of the program shares.
pub mod Keys
pub mod State
pub mod Text
pub mod Lines
pub mod Regex
pub mod Split
pub mod Digits
pub mod LimitError
pub mod FailurePatterns
pub mod Failure
