-- ===== src/Text.antt =====
-- What the program takes from Go's `strings` and `strconv` packages, over native texts.
pub mod Decimal
pub mod Octal
pub mod Words
