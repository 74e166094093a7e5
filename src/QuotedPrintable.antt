-- ===== src/QuotedPrintable.antt =====
-- quotedprintable/
pub mod Writer
pub mod Flushes
pub mod Bounds
pub mod Spec
pub mod Decoding
pub mod Padding
pub mod Utf8
pub mod Reader
pub mod ReaderWork
pub mod ReaderHeld
pub mod ReaderFill
pub mod ReaderReturns
