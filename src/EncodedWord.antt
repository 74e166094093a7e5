-- ===== src/EncodedWord.antt =====
-- encodedword.go
pub mod Base64
pub mod QEncoding
pub mod Encode
pub mod QRoundTrip
pub mod Base64RoundTrip
pub mod Short
pub mod WordRoundTrip
pub mod Words
pub mod Decode
pub mod Header
pub mod HeaderRoundTrip
pub mod HeaderFuel
pub mod WordLength
