-- ===== src/Cipher/Sha256/Length.antt =====
-- A digest has 32 bytes, and each is a byte.
use fidelity.Common.{ℕ, ◌≡◌, refl, List, length}
use fidelity.Cipher.Sha256.{sha256, be_bytes, Working, digest_of}

length-digest_of : (w : Working) → length (digest_of w) ≡ 32
unfolding digest_of be_bytes
length-digest_of w = refl

pub length-sha256 : (message : List ℕ) → length (sha256 message) ≡ 32
unfolding sha256
length-sha256 message = length-digest_of _
