-- ===== src/Buffer.antt =====
-- tecc_buffer.c, tecc_buffer.h: an expandable byte buffer with the operations of a file.
pub mod Bytes
pub mod Defs
pub mod Growth
pub mod Limits
pub mod Writing
pub mod Access
pub mod Overrun
pub mod Text
pub mod Lifetime
pub mod Hex
pub mod HexText
pub mod Printing
pub mod Dump
pub mod Table
pub mod Cells
pub mod Rows
pub mod Tabling
pub mod Json
