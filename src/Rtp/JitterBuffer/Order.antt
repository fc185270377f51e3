-- ===== src/Rtp/JitterBuffer/Order.antt =====
-- The order in which packets leave the buffer, over every sequence of calls.
use cpp_meet.Common.{
  ℕ, ◌+◌, ◌%◌, ◌^◌, ◌≡◌, refl, true, Option, none, some, List, [], ◌∷◌, arith, ==_iff, inl, inr,
  Option-cases, cons_some,
}
use mathlib.Core.Path.{subst}
use cpp_meet.Common.Keys.{nat_eq, lookup, lookup-erase, lookup-emplace}
use cpp_meet.Rtp.Packet.{RtpPacket, sequence}
use cpp_meet.Rtp.JitterBuffer.{RtpJitterBuffer, push, pop_found, pop_next}

-- Every packet stands under its own sequence number.
abbrev pub IsKeyed : RtpJitterBuffer → Type 0
IsKeyed b = (k : ℕ) (p : RtpPacket) → lookup k b.buf ≡ some p → sequence p ≡ k

-- `pop_next` needs no test for an empty map: there is nothing to find in it.
pub pop_next-eq-found : (b : RtpJitterBuffer) → pop_next b ≡ pop_found b (lookup b.next_seq b.buf)
unfolding pop_next lookup pop_found
pop_next-eq-found b = ground arith

pub push-IsKeyed : (b : RtpJitterBuffer) (p : RtpPacket) → IsKeyed b → IsKeyed (push b p)
unfolding push
push-IsKeyed b p h k q e =
    ground (arith, lookup-emplace (sequence p) k p b.buf, h k q, ==_iff (sequence p) k)

pub pop_found-IsKeyed :
    (b : RtpJitterBuffer) (o : Option RtpPacket) → IsKeyed b → IsKeyed (pop_found b o).1
unfolding pop_found
pop_found-IsKeyed b none h k q e = h k q e
pop_found-IsKeyed b (some p) h k q e = ground (arith, lookup-erase b.next_seq k b.buf, h k q)

next_seq-push :
    (b : RtpJitterBuffer) (p : RtpPacket) → b.started ≡ true → (push b p).next_seq ≡ b.next_seq
unfolding push
next_seq-push b p s = rw s

-- A call by the owner of the buffer.
pub data Call : Type 0 where
  put : RtpPacket → Call
  take : Call

-- What the pops among the calls return, in order; a pop that returns nothing is left out.
unfoldable pub delivered : RtpJitterBuffer → List Call → List RtpPacket
delivered b [] = []
delivered b (put p ∷ calls) = delivered (push b p) calls
delivered b (take ∷ calls) = cons_some (pop_next b).0 (delivered (pop_next b).1 calls)

-- Sequence numbers that go up by one from `n`, round the end at 2 ^ 16.
abbrev pub InSequence : ℕ → List RtpPacket → Type 0
InSequence n [] = Unit
InSequence n (p ∷ ps) = (sequence p ≡ n) × InSequence ((n + 1) % 2 ^ 16) ps

-- From a started buffer whose packets stand under their own numbers, whatever is pushed and popped
-- and in whatever order, the packets that are delivered carry consecutive sequence numbers from
-- `next_seq_` on: none is repeated, skipped or overtaken.
pub delivered-InSequence :
    (calls : List Call) (b : RtpJitterBuffer)
    → IsKeyed b
    → b.started ≡ true
    → InSequence b.next_seq (delivered b calls)
unfolding delivered pop_found
delivered-InSequence [] b h s = tt
delivered-InSequence (put p ∷ calls) b h s =
    subst (λ n. InSequence n (delivered (push b p) calls)) (next_seq-push b p s)
      (delivered-InSequence calls (push b p) (push-IsKeyed b p h) (unfold push in refl))
delivered-InSequence (take ∷ calls) b h s = elim (Option-cases (lookup b.next_seq b.buf)) [
  | inl e ↦ rw (pop_next-eq-found b, e) (delivered-InSequence calls b h s)
  | inr (p, e) ↦
      rw (pop_next-eq-found b, e)
        (
          h b.next_seq p e,
          delivered-InSequence calls (pop_found b (some p)).1 (pop_found-IsKeyed b (some p) h) s,
        )
]
