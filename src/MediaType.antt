-- ===== src/MediaType.antt =====
-- mediatype.go
pub mod Consume
pub mod Tokens
pub mod Quoted
pub mod Shrink
pub mod Total
pub mod Repair
pub mod RoundTrip
pub mod Sorted
pub mod TypeText
pub mod ParamLoop
pub mod ParamText
pub mod TokenText
pub mod Percent
pub mod Format
pub mod Errors
pub mod Parse
pub mod Order
