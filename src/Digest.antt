-- ===== src/Digest.antt =====
-- src/digest.c: MD5, SHA-1 and HMAC. The children hold the words, the two hash functions with their states,
-- the encoding of a digest, and the proofs.
pub mod Word
pub mod State
pub mod Md5
pub mod Md5Block
pub mod Md5Rfc
pub mod Md5Rounds
pub mod Sha1Rfc
pub mod Sha1
pub mod Sha1Block
pub mod Output
pub mod Hmac
pub mod Chain
pub mod Sha1Run
pub mod Sha1Pad
pub mod Md5Run
pub mod Md5Pad
pub mod Md5Digest
pub mod WorkKey
pub mod HmacRun
mod Runs
