-- ===== src/Theater/Quotes.antt =====
-- Why quote() never refuses what the build writes: no string that was read holds a double quote.
mod Reading
mod Writing
pub use Reading.*
pub use Writing.*
