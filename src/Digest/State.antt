-- ===== src/Digest/State.antt =====
-- `struct DigestState` and `InitializeDigestState` of src/digest.c. The five words of the hash stand in a
-- record of their own. `buffer` is the list of its first `buflen` bytes, the only ones that are read
-- before they are written.
use aws_s3fs.Common.{ℕ, Bool, false, List, []}

pub record Regs : Type 0 where
  pub a : ℕ
  pub b : ℕ
  pub c : ℕ
  pub d : ℕ
  pub e : ℕ

pub record DigestState : Type 0 where
  pub regs : Regs
  pub total_0 : ℕ
  pub total_1 : ℕ
  pub buffer : List ℕ
  pub computed : Bool
  pub corrupted : Bool

pub data HashFunction : Type 0 where
  md5 sha1 : HashFunction

pub data HashEncoding : Type 0 where
  base64 bin hex : HashEncoding

abbrev pub initial_regs : Regs
initial_regs = record {
  a = 0x67452301;
  b = 0xefcdab89;
  c = 0x98badcfe;
  d = 0x10325476;
  e = 0xc3d2e1f0;
}

abbrev pub initialize_digest_state : DigestState
initialize_digest_state = record {
  regs = initial_regs;
  total_0 = 0;
  total_1 = 0;
  buffer = [];
  computed = false;
  corrupted = false;
}
