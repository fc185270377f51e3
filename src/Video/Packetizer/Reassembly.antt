-- ===== src/Video/Packetizer/Reassembly.antt =====
-- A receiver puts the NAL unit together again from the packets.
use mathlib.Core.Path.{subst}
use cpp_meet.Common.{
  ℕ, zero, suc, ◌+◌, ◌%◌, ◌^◌, ◌<◌, ◌≤◌, ◌≡◌, refl, sym, ap, ap₂, ◌∙◌, ◌⊎◌, Bool, true, false, some,
  List, [], ◌∷◌, ◌++◌, arith, length, drop, take, min, ◌==◌, Bool-cases, inl, inr, length-drop,
  length-take, take-append-drop,
}
use cpp_meet.Wire.{Bytes, byte_at}
use cpp_meet.Rtp.Packet.{RtpPacket, default, build}
use cpp_meet.Rtp.Packet.Build.{Carries, parse-build}
use cpp_meet.Video.Packetizer.{NalUnit, fua_loop, make_fua_packets, packetize, skip_start_code}
use cpp_meet.Video.Packetizer.Fragments.{
  fragment, IsFragment, packet, fragment-packet, packet-IsFragment,
}

abbrev pub is_nil : List RtpPacket → Bool
is_nil [] = true
is_nil (p ∷ ps) = false

-- Fragments in order: consecutive sequence numbers, the S bit on the first packet alone, the E bit
-- and the marker on the last alone.
abbrev pub IsRun : ℕ → ℕ → ℕ → ℕ → Bool → ℕ → List RtpPacket → Type 0
IsRun hdr pt ts src first seq [] = Unit
IsRun hdr pt ts src first seq (p ∷ ps) =
    IsFragment hdr pt ts src first (is_nil ps) seq p
    × IsRun hdr pt ts src false ((seq + 1) % 2 ^ 16) ps

abbrev pub fragments : List RtpPacket → Bytes
fragments [] = []
fragments (p ∷ ps) = fragment p ++ fragments ps

-- The cut of one round.
chunk_facts :
    (b : ℕ) (bs : Bytes)
    → let chunk = min (length (b ∷ bs)) 1198 in
      (1 ≤ length (take chunk (b ∷ bs)))
      × (length (take chunk (b ∷ bs)) ≤ 1198)
      × ((length (drop chunk (b ∷ bs)) == 0) ≡ (chunk == length (b ∷ bs)))
chunk_facts b bs =
    let chunk = min (length (b ∷ bs)) 1198 in
    (
      omega (arith, length-take chunk (b ∷ bs)),
      omega (arith, length-take chunk (b ∷ bs)),
      ground (arith, length-drop chunk (b ∷ bs)),
    )

packetize_big :
    (nal : NalUnit) (pt seq ts src : ℕ)
    → 1200 < length (skip_start_code nal.bytes)
    → packetize nal pt seq ts src ≡ make_fua_packets (skip_start_code nal.bytes) pt seq ts src
unfolding packetize
packetize_big nal pt seq ts src h = ground arith

module _ (hdr pt ts src : ℕ) (hp : pt < 128) (ht : ts < 2 ^ 32) (hr : src < 2 ^ 32) where
  abbrev Run : List RtpPacket × ℕ → Bool → ℕ → Bytes → Type 0
  Run r first seq data_ =
      IsRun hdr pt ts src first seq r.0
      × (fragments r.0 ≡ data_)
      × (r.1 ≡ (seq + length r.0) % 2 ^ 16)

  loop_empty :
      (fuel : ℕ) (first : Bool) (seq : ℕ) → fua_loop fuel hdr pt ts src [] first seq ≡ ([], seq)
  unfolding fua_loop
  loop_empty zero first seq = refl
  loop_empty (suc fuel) first seq = refl

  is_nil-loop :
      (fuel : ℕ) (d : Bytes) (first : Bool) (seq : ℕ)
      → length d ≤ fuel
      → is_nil (fua_loop fuel hdr pt ts src d first seq).0 ≡ (length d == 0)
  unfolding fua_loop
  is_nil-loop zero [] first seq h = refl
  is_nil-loop zero (b ∷ bs) first seq h = absurd (omega arith)
  is_nil-loop (suc fuel) [] first seq h = refl
  is_nil-loop (suc fuel) (b ∷ bs) first seq h = ground arith

  fua_loop-Run :
      (fuel : ℕ) (d : Bytes) (first : Bool) (seq : ℕ)
      → length d ≤ fuel
      → seq < 2 ^ 16
      → Run (fua_loop fuel hdr pt ts src d first seq) first seq d
  unfolding fua_loop
  fua_loop-Run zero [] first seq h hs = (tt, refl, omega arith)
  fua_loop-Run zero (b ∷ bs) first seq h hs = absurd (omega arith)
  fua_loop-Run (suc fuel) [] first seq h hs = (tt, refl, omega arith)
  fua_loop-Run (suc fuel) (b ∷ bs) first seq h hs =
      let chunk = min (length (b ∷ bs)) 1198 in
      let last = chunk == length (b ∷ bs) in
      let part = take chunk (b ∷ bs) in
      let rest = drop chunk (b ∷ bs) in
      let ih =
        fua_loop-Run fuel rest false ((seq + 1) % 2 ^ 16)
          (omega (arith, length-drop chunk (b ∷ bs))) (omega arith) in
      let ends =
        is_nil-loop fuel rest false ((seq + 1) % 2 ^ 16)
          (omega (arith, length-drop chunk (b ∷ bs))) in
      let (some_, few, agree) = chunk_facts b bs in
      let frag = packet-IsFragment hdr pt ts src seq first last part hp hs ht hr some_ few in
      let whole = fragment-packet hdr pt ts src seq first last part hp hs ht hr in
      (
        (
          subst
              (λ l.
                IsFragment hdr pt ts src first l seq
                  (packet hdr pt ts src seq first last part hp hs ht hr))
              (sym (ends ∙ agree)) frag,
          ih.0,
        ),
        ap₂ ◌++◌ whole ih.1 ∙ take-append-drop chunk (b ∷ bs),
        omega (arith, ih.2),
      )

  -- `make_fua_packets`, which loses the first byte of an empty unit only.
  make_fua-Run :
      (d : Bytes) (seq : ℕ)
      → byte_at d 0 ≡ hdr
      → seq < 2 ^ 16
      → Run (make_fua_packets d pt seq ts src) true seq (drop 1 d)
  unfolding make_fua_packets
  make_fua-Run d seq e hs =
      rw e (fua_loop-Run (length d) (drop 1 d) true seq (omega (arith, length-drop 1 d)) hs)

head_drop : (d : Bytes) → 0 < length d → byte_at d 0 ∷ drop 1 d ≡ d
head_drop [] h = absurd (omega arith)
head_drop (b ∷ bs) h = refl

-- With header fields in their ranges, a NAL unit of more than 1200 bytes behind its start code goes out as FU-A fragments with
-- consecutive sequence numbers, at most 1200 payload bytes each, the S bit on the first alone and the
-- E bit and the marker on the last alone; its header byte and the fragments joined are the NAL unit;
-- and `seq` moves on by the number of packets.
pub packetize-fragments :
    (nal : NalUnit) (pt seq ts src : ℕ)
    → pt < 128
    → seq < 2 ^ 16
    → ts < 2 ^ 32
    → src < 2 ^ 32
    → 1200 < length (skip_start_code nal.bytes)
    → let r = packetize nal pt seq ts src in
      IsRun (byte_at (skip_start_code nal.bytes) 0) pt ts src true seq r.0
      × (byte_at (skip_start_code nal.bytes) 0 ∷ fragments r.0 ≡ skip_start_code nal.bytes)
      × (r.1 ≡ (seq + length r.0) % 2 ^ 16)
packetize-fragments nal pt seq ts src hp hs ht hr big =
    let d = skip_start_code nal.bytes in
    let (run, whole, next) = make_fua-Run (byte_at d 0) pt ts src hp ht hr d seq refl hs in
    rw (packetize_big nal pt seq ts src big)
      (run, ap (λ (t : Bytes). byte_at d 0 ∷ t) whole ∙ head_drop d (omega arith), next)

-- With header fields in their ranges, a NAL unit of 1 to 1200 bytes behind its start code goes out whole in one packet with the marker,
-- and `seq` moves on by one; an empty one gives no packet and leaves `seq`.
pub packetize_single :
    (nal : NalUnit) (pt seq ts src : ℕ)
    → pt < 128
    → seq < 2 ^ 16
    → ts < 2 ^ 32
    → src < 2 ^ 32
    → length (skip_start_code nal.bytes) ≤ 1200
    → ((length (skip_start_code nal.bytes) ≡ 0) × (packetize nal pt seq ts src ≡ ([], seq)))
      ⊎ ((p : RtpPacket) × (packetize nal pt seq ts src ≡ (p ∷ [], (seq + 1) % 2 ^ 16))
          × Carries p pt seq ts src true (skip_start_code nal.bytes))
unfolding packetize
packetize_single nal pt seq ts src hp hs ht hr small =
    let d = skip_start_code nal.bytes in
    elim (Bool-cases (length d == 0)) [
      | inl e ↦ inl (ground arith, rw e)
      | inr e ↦ inr (
        build default pt seq ts src (some d) (length d) true,
        ground arith,
        (parse-build default default pt seq ts src true d hp hs ht hr).0,
      )
    ]
