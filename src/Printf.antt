-- ===== src/Printf.antt =====
-- software/bsg_manycore_lib/bsg_printf.c, the formatted output of the runtime, for a build without
-- HAS_FLOAT. Characters are numbers; a C string is the list of its characters before the NUL. A
-- function that writes at `str` and returns the new `str` returns the characters that it wrote.
pub mod Number
pub mod Address
pub mod Format
pub mod Print
pub mod NumberLength
pub mod NumberValue
pub mod NumberText
pub mod Decimal
pub mod Parsing
pub mod Directives
pub mod Pieces
pub mod Total
mod Tests
