-- ===== src/Tests.antt =====
-- The theorems at inputs that exercise the code.
mod Header
mod Writer
mod Word
mod Utf8
mod Reader
mod Types
mod Multipart
mod Forms
