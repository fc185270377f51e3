-- ===== src/AdaptiveBuffer/Order.antt =====
-- The order in which `JitterBuffer` gives packets out.
use mathlib.Core.Path.{subst}
use cpp_meet.Common.{
  ℕ, ◌<◌, ◌≡◌, refl, sym, Bool, List, [], ◌∷◌, ◌==◌, arith, ltb, ltb→lt, if◌then◌else◌, if_elim,
  Option, none, some, All,
}
use cpp_meet.Common.Double.{Double}
use cpp_meet.Rtp.Packet.{RtpPacket, sequence}
use cpp_meet.AdaptiveBuffer.{
  JitterBuffer, without_first, emplace, is_due, new_buffer, pop, pop_first, push,
}

-- The keys ascend, and each is the sequence number of its packet.
abbrev pub IsAscending : List (ℕ × RtpPacket) → Type 0
IsAscending [] = Unit
IsAscending ((k, p) ∷ m) = All (λ (e : ℕ × RtpPacket). k < e.0) m × (sequence p ≡ k) × IsAscending m

All-emplace :
    (j k : ℕ) (p : RtpPacket) (m : List (ℕ × RtpPacket))
    → j < k
    → All (λ (e : ℕ × RtpPacket). j < e.0) m
    → All (λ (e : ℕ × RtpPacket). j < e.0) (emplace k p m)
unfolding emplace
All-emplace j k p [] h a = (h, tt)
All-emplace j k p ((i, q) ∷ m) h (a, rest) =
    let P = All (λ (e : ℕ × RtpPacket). j < e.0) in
    if_elim P (ltb k i) ((k, p) ∷ (i, q) ∷ m)
      (if k == i then (i, q) ∷ m else (i, q) ∷ emplace k p m) (λ e. (h, (a, rest)))
      (λ e.
        if_elim P (k == i) ((i, q) ∷ m) ((i, q) ∷ emplace k p m) (λ f. (a, rest))
          (λ f. (a, All-emplace j k p m h rest)))

All-smaller :
    (j k : ℕ) (m : List (ℕ × RtpPacket))
    → j < k
    → All (λ (e : ℕ × RtpPacket). k < e.0) m
    → All (λ (e : ℕ × RtpPacket). j < e.0) m
All-smaller j k [] h a = tt
All-smaller j k ((i, q) ∷ m) h (a, rest) = (omega arith, All-smaller j k m h rest)

emplace-IsAscending :
    (p : RtpPacket) (m : List (ℕ × RtpPacket))
    → IsAscending m
    → IsAscending (emplace (sequence p) p m)
unfolding emplace
emplace-IsAscending p [] h = (tt, refl, tt)
emplace-IsAscending p ((i, q) ∷ m) (a, s, h) =
    let k = sequence p in
    if_elim IsAscending (ltb k i) ((k, p) ∷ (i, q) ∷ m)
      (if k == i then (i, q) ∷ m else (i, q) ∷ emplace k p m)
      (λ e. ((ltb→lt k i e, All-smaller k i m (ltb→lt k i e) a), refl, (a, s, h)))
      (λ e.
        if_elim IsAscending (k == i) ((i, q) ∷ m) ((i, q) ∷ emplace k p m) (λ f. (a, s, h))
          (λ f. (All-emplace i k p m (ground (arith, e, f)) a, s, emplace-IsAscending p m h)))

sequences_above :
    (k : ℕ) (m : List (ℕ × RtpPacket))
    → All (λ (e : ℕ × RtpPacket). k < e.0) m
    → IsAscending m
    → All (λ (e : ℕ × RtpPacket). k < sequence e.1) m
sequences_above k [] a h = tt
sequences_above k ((i, q) ∷ m) (a, rest) (_, s, h) =
    (omega (arith, s, a), sequences_above k m rest h)

-- A call: a packet and the time, or the time.
pub data Call : Type 0 where
  arrive : ℕ → RtpPacket → Call
  ask : ℕ → Call

module _ (d : Double) (millis : ℕ → ℕ → d.F) where
  unfoldable pub after : List Call → JitterBuffer d millis → JitterBuffer d millis
  after [] b = b
  after (arrive now p ∷ calls) b = after calls (push d millis now p b)
  after (ask now ∷ calls) b = after calls (pop d millis now b).1

  pop-IsAscending :
      (due : Bool) (m : List (ℕ × RtpPacket)) (b : JitterBuffer d millis)
      → m ≡ b.buf
      → IsAscending m
      → IsAscending (pop_first d millis due m b).1.buf
  unfolding pop_first
  pop-IsAscending due [] b e h = subst IsAscending e h
  pop-IsAscending due ((k, p) ∷ m) b e h =
      let P : Option RtpPacket × JitterBuffer d millis → Type 0 = λ t. IsAscending t.1.buf in
      let kept = subst IsAscending e h in
      let given = without_first d millis m b in
      if_elim P b.started (if due then (some p, given) else (none, b)) (none, b)
        (λ _. if_elim P due (some p, given) (none, b) (λ _. h.2) (λ _. kept)) (λ _. kept)

  after-IsAscending :
      (calls : List Call) (b : JitterBuffer d millis)
      → IsAscending b.buf
      → IsAscending (after calls b).buf
  unfolding after push pop
  after-IsAscending [] b h = h
  after-IsAscending (arrive now p ∷ calls) b h =
      after-IsAscending calls (push d millis now p b) (emplace-IsAscending p b.buf h)
  after-IsAscending (ask now ∷ calls) b h =
      after-IsAscending calls (pop d millis now b).1
        (pop-IsAscending (is_due d millis now b) b.buf b refl h)

  least_first :
      (due : Bool) (p : RtpPacket) (m : List (ℕ × RtpPacket)) (b : JitterBuffer d millis)
      → IsAscending m
      → (pop_first d millis due m b).0 ≡ some p
      → All (λ (e : ℕ × RtpPacket). sequence p < sequence e.1) (pop_first d millis due m b).1.buf
  unfolding pop_first
  least_first due p [] b h e = absurd cc
  least_first due p ((k, q) ∷ m) b (a, s, h) e =
      let P : Option RtpPacket × JitterBuffer d millis → Type 0 =
        λ t. t.0 ≡ some p → All (λ (f : ℕ × RtpPacket). sequence p < sequence f.1) t.1.buf in
      let given = without_first d millis m b in
      let first : P (some q, given) = λ found.
        let same : q ≡ p = cc found in
        subst (λ t. All (λ (f : ℕ × RtpPacket). sequence t < sequence f.1) m) same
          (subst (λ i. All (λ (f : ℕ × RtpPacket). i < sequence f.1) m) (sym s)
            (sequences_above k m a h)) in
      if_elim P b.started (if due then (some q, given) else (none, b)) (none, b)
        (λ _. if_elim P due (some q, given) (none, b) (λ _. first) (λ _ found. absurd cc))
        (λ _ found. absurd cc) e

  -- After any calls on a new buffer, the packet that `pop` gives has a smaller sequence number than every
  -- packet that is left, compared as numbers.
  pub pop_least :
      (calls : List Call) (target_delay_ms epoch now : ℕ) (p : RtpPacket)
      → (pop d millis now (after calls (new_buffer d millis target_delay_ms epoch))).0 ≡ some p
      → All
          (λ (e : ℕ × RtpPacket). sequence p < sequence e.1)
          (pop d millis now (after calls (new_buffer d millis target_delay_ms epoch))).1.buf
  unfolding pop
  pop_least calls target_delay_ms epoch now p e =
      let b = after calls (new_buffer d millis target_delay_ms epoch) in
      least_first (is_due d millis now b) p b.buf b
        (after-IsAscending calls (new_buffer d millis target_delay_ms epoch) tt) e
