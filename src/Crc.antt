-- ===== src/Crc.antt =====
-- crc-util.c, and the copies of `GetCRC` and `AddCRC` in the slave simulator.
mod Defs
mod Xor
pub mod Bitwise
pub mod Footer
pub use Xor.*
unfoldable pub use Defs.{
  crc_footer_length, crc_table, crc_update, crc_rounds, get_crc, validate_crc, add_crc,
}
