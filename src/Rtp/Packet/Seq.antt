-- ===== src/Rtp/Packet/Seq.antt =====
-- Sequence number comparison with wrap-around (RFC 3550 A.1).
use cpp_meet.Common.{ℕ, ◌+◌, ◌%◌, ◌^◌, ◌<◌, ◌≡◌, ◌≢◌, ◌⊎◌, true, false, ◌&&◌, ltb, arith}
use cpp_meet.Rtp.Packet.{seq_gt}

-- Of two 16-bit numbers, the one that is `d` steps ahead of `b`, round the end if need be, is newer
-- exactly when `d` is at least 1 and below 2 ^ 15.
pub seq_gt_ahead :
    (b d : ℕ) → b < 2 ^ 16 → d < 2 ^ 16 → seq_gt ((b + d) % 2 ^ 16) b ≡ (ltb 0 d && ltb d (2 ^ 15))
unfolding seq_gt
seq_gt_ahead b d hb hd = ground arith

-- Of two different 16-bit numbers that are not 2 ^ 15 apart exactly one is newer than the other.
pub seq_gt_total :
    (a b : ℕ)
    → a < 2 ^ 16
    → b < 2 ^ 16
    → a ≢ b
    → (a + 2 ^ 15) % 2 ^ 16 ≢ b
    → ((seq_gt a b ≡ true) × (seq_gt b a ≡ false)) ⊎ ((seq_gt a b ≡ false) × (seq_gt b a ≡ true))
unfolding seq_gt
seq_gt_total a b ha hb h k = ground arith
