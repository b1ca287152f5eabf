-- ===== src/Bcode.antt =====
-- src/bcode.h and src/bcode.c: the values of a metainfo file, their decoder and their encoder.
pub mod Value
pub mod Decode
pub mod Encode
pub mod Decimal
pub mod RoundTrip
pub mod Exact
pub mod Total
pub mod Lookup
pub mod Print
