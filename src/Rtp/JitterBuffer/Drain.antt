-- ===== src/Rtp/JitterBuffer/Drain.antt =====
-- A run of packets that are all there leaves the buffer whole, and a gap holds everything back.
use cpp_meet.Common.{
  ℕ, zero, suc, ◌+◌, ◌%◌, ◌^◌, ◌≤◌, ◌<◌, ◌≡◌, refl, ap, none, some, List, [], ◌∷◌, arith, ==_iff,
  length, cons_some,
}
use cpp_meet.Common.Keys.{nat_eq, lookup, erase, lookup-erase}
use cpp_meet.Rtp.Packet.{RtpPacket}
use cpp_meet.Rtp.JitterBuffer.{RtpJitterBuffer, pop_found, pop_next}
use cpp_meet.Rtp.JitterBuffer.Order.{pop_next-eq-found}

-- `pop_next` called `n` times: the packets it returns.
pub drain : ℕ → RtpJitterBuffer → List RtpPacket
drain zero b = []
drain (suc n) b = cons_some (pop_next b).0 (drain n (pop_next b).1)

-- The packets `ps` stand in the map under `k`, `k + 1` and so on, round the end at 2 ^ 16.
abbrev pub HoldsRun : List (ℕ × RtpPacket) → ℕ → List RtpPacket → Type 0
HoldsRun m k [] = Unit
HoldsRun m k (p ∷ ps) = (lookup k m ≡ some p) × HoldsRun m ((k + 1) % 2 ^ 16) ps

-- Taking out a number that a run does not reach leaves the run there.
HoldsRun-erase :
    (m : List (ℕ × RtpPacket)) (k j d : ℕ) (ps : List RtpPacket)
    → k < 2 ^ 16
    → j ≡ (k + d) % 2 ^ 16
    → 0 < d
    → d + length ps ≤ 2 ^ 16
    → HoldsRun m j ps
    → HoldsRun (erase k m) j ps
HoldsRun-erase m k j d [] hk hj hd hl h = tt
HoldsRun-erase m k j d (p ∷ ps) hk hj hd hl h = (
  ground (arith, lookup-erase k j m, ==_iff k j),
  HoldsRun-erase m k ((j + 1) % 2 ^ 16) (d + 1) ps hk (omega arith) (omega arith) (omega arith) h.1,
)

-- If the packets of a run from `next_seq_` on are all in the buffer, at most 2 ^ 16 of them, then
-- as many pops return exactly these packets in order.
pub drain_run :
    (ps : List RtpPacket) (b : RtpJitterBuffer)
    → b.next_seq < 2 ^ 16
    → length ps ≤ 2 ^ 16
    → HoldsRun b.buf b.next_seq ps
    → drain (length ps) b ≡ ps
unfolding drain pop_found
drain_run [] b hn hl h = refl
drain_run (p ∷ ps) b hn hl h =
    rw (pop_next-eq-found b, h.0)
      (ap (λ (t : List RtpPacket). p ∷ t)
        (drain_run ps (pop_found b (some p)).1 (omega arith) (omega arith)
          (HoldsRun-erase b.buf b.next_seq _ 1 ps hn refl (omega arith) (omega arith) h.1)))

-- While the packet of `next_seq_` is missing, no number of pops returns anything.
pub drain_gap : (n : ℕ) (b : RtpJitterBuffer) → lookup b.next_seq b.buf ≡ none → drain n b ≡ []
unfolding drain pop_found
drain_gap zero b h = refl
drain_gap (suc n) b h = rw (pop_next-eq-found b, h) (drain_gap n b h)
