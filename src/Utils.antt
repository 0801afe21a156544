-- ===== src/Utils.antt =====
-- src/anj/utils.c and include_public/anj/utils.h: block sizes, numbers as text, and paths.
pub mod BlockSize
pub mod Decimal
pub mod Numbers
pub mod UriPath
pub mod Parsing
mod Tests
