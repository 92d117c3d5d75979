-- ===== src/Time.antt =====
-- tecc_time.c and tecc_time.h: points in time and intervals, in nanoseconds.
pub mod Defs
pub mod Conversion
pub mod Units
