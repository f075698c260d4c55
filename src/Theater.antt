-- ===== src/Theater.antt =====
-- tools/theater-build/build.py: theaters flattened into self-contained files.
pub mod KeyValues
pub mod Lexer
pub mod Parser
pub mod Merge
pub mod Loader
pub mod Attachments
pub mod Writer
pub mod Build
pub mod Lexing
pub mod RoundTrip
pub mod Strings
pub mod Quotes
pub mod SelfContained
mod Examples
