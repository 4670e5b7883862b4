-- ===== src/Text.antt =====
-- The functions of Go's strings, strconv and encoding/hex that the program uses, on byte
-- sequences. TrimSpace and ToLower are those of ASCII text.
pub mod Decimal
pub mod Separated
pub mod Hex
