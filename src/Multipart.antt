-- ===== src/Multipart.antt =====
-- multipart/
pub mod Writer
pub mod Bufio
pub mod Lines
pub mod Reader
pub mod Search
pub mod Separator
pub mod PartContent
pub mod Drain
pub mod MarkLines
pub mod Rounds
pub mod Client
pub mod Follows
pub mod ReadBack
pub mod Returns
pub mod FinalLine
pub mod Progress
pub mod NextPart
pub mod Form
