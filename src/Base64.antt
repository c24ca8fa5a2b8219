-- ===== src/Base64.antt =====
-- src/base64.c: the Base64 encoder and decoder. A working buffer, `build_buffer`, holds `size` bytes (2048, or
-- 100 in the tests); when it is nearly full it is appended to a heap block of `alloc_count * size`
-- bytes. A buffer is the list of what is written to it so far. Every write is checked against its
-- buffer here, and `none` is a write out of bounds, which C does not check.
pub mod Encode
pub mod Decode
pub mod Rfc
pub mod Encoded
pub mod EncodeRun
pub mod Decoded
pub mod RoundTrip
mod Runs
