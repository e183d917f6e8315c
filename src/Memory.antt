-- ===== src/Memory.antt =====
-- Byte arrays of a fixed size, with the reads and writes of C: `memcpy`, `memmove` and single
-- stores. An access that leaves the array is `fault`.
mod Laws
mod Overlap
pub use Overlap.*
pub use Laws.*
mod Defs
unfoldable pub use Defs.{IsBytes, uninit, read_byte, read_bytes, write_bytes, write_byte}
