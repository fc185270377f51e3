-- ===== src/Fec/Decoder/Session.antt =====
-- Encoder and decoder together: the packets of a group, one of which is lost, and the FEC packet.
use cpp_meet.Common.{
  ℕ, suc, ◌+◌, ◌*◌, ◌%◌, ◌^◌, ◌<◌, ◌≤◌, ◌≡◌, ap, ap₂, sym, ◌∙◌, Bool, true, false, Option, none,
  List, [], ◌∷◌, ◌++◌, arith, length, length-append, append_assoc, append-nil, replicate, cons_some,
}
use mathlib.Core.Path.{subst}
use cpp_meet.Common.Keys.{nat_eq}
use cpp_meet.Wire.{byte_at}
use cpp_meet.Rtp.Packet.{RtpPacket, sequence, timestamp}
use cpp_meet.Fec.Xor.{payload_bytes, xor_all, longest}
use cpp_meet.Fec.Encoder.{XorFecEncoder, encode_run, encode_group}
use cpp_meet.Fec.Decoder.{new_decoder}
use cpp_meet.Fec.Decoder.Recovery.{
  length-present, present, recovered, recovered-byte, recovered-length, recovered-sequence,
  with_hole,
}
use cpp_meet.Fec.Decoder.Filling.{
  Numbered, data_packets, decode-fec, decode_run, fill, first_data, waiting,
}

-- From the first packet of a group on, a new decoder does what one that waits for the group does.
from_new :
    (q gs : ℕ) (p : RtpPacket) (j : ℕ) (more : List (RtpPacket × Bool))
    → j < gs
    → q * gs + gs ≤ 2 ^ 16
    → sequence p ≡ q * gs + j
    → decode_run (new_decoder gs) ((p, false) ∷ more)
      ≡ decode_run (waiting gs (q * gs) (replicate gs none) 0) ((p, false) ∷ more)
unfolding decode_run
from_new q gs p j more h fits e =
    ap (λ t. let (later, d) = decode_run t.1 more in (cons_some t.0 later, d))
      (first_data q gs p j h fits e)

Numbered-split :
    (n : ℕ) (before : List RtpPacket) (m : RtpPacket) (after : List RtpPacket)
    → Numbered n (before ++ (m ∷ after))
    → Numbered n before × (sequence m ≡ n + length before) × Numbered (n + length before + 1) after
Numbered-split n [] m after h =
    (tt, h.0 ∙ omega arith, subst (λ t. Numbered t after) (omega arith) h.1)
Numbered-split n (p ∷ ps) m after h =
    let (x, y, z) = Numbered-split (n + 1) ps m after h.1 in
    ((h.0, x), y ∙ omega arith, subst (λ t. Numbered t after) (omega arith) z)

-- What the decoder gets of a group in which the packet between `before` and `after` is lost.
abbrev pub arrivals : List RtpPacket → List RtpPacket → RtpPacket → List (RtpPacket × Bool)
arrivals before after f = data_packets before ++ (data_packets after ++ ((f, true) ∷ []))

started :
    (q gs : ℕ) (before after : List RtpPacket) (m f : RtpPacket)
    → Numbered (q * gs) (before ++ (m ∷ after))
    → length (before ++ (m ∷ after)) ≡ gs
    → 2 ≤ gs
    → q * gs + gs ≤ 2 ^ 16
    → decode_run (new_decoder gs) (arrivals before after f)
      ≡ decode_run (waiting gs (q * gs) (replicate gs none) 0) (arrivals before after f)
started q gs [] [] m f n h two fits = absurd (omega arith)
started q gs [] (p ∷ ps) m f n h two fits =
    from_new q gs p 1 (data_packets ps ++ ((f, true) ∷ [])) (omega arith) fits n.1.0
started q gs (p ∷ ps) after m f n h two fits =
    from_new q gs p 0 (data_packets ps ++ (data_packets after ++ ((f, true) ∷ []))) (omega arith)
      fits (n.0 ∙ omega arith)

-- All the data packets that arrive are in their places.
all_but_one :
    (q gs : ℕ) (before after : List RtpPacket) (m f : RtpPacket)
    → Numbered (q * gs) (before ++ (m ∷ after))
    → length (before ++ (m ∷ after)) ≡ gs
    → q * gs + gs ≤ 2 ^ 16
    → decode_run (waiting gs (q * gs) (replicate gs none) 0) (arrivals before after f)
      ≡ decode_run
          (waiting gs (q * gs) (with_hole before after) (length before + length after))
          ((f, true) ∷ [])
all_but_one q gs before after m f n h fits =
    let one : List (Option RtpPacket) = none ∷ [] in
    let (early, _, late) = Numbered-split (q * gs) before m after n in
    let size : gs ≡ length before + (1 + length after) =
      sym h ∙ length-append before (m ∷ after) ∙ omega arith in
    let places : 1 + length after ≡ suc (length after + 0) = omega arith in
    let ahead : length (present before ++ one) ≡ length before + 1 =
      omega (arith, length-append (present before) one, length-present before) in
    ap (λ j. decode_run (waiting gs (q * gs) (replicate j none) 0) (arrivals before after f)) size
    ∙ fill q gs 0 (1 + length after) [] before (data_packets after ++ ((f, true) ∷ []))
        (omega (arith, size)) fits (subst (λ t. Numbered t before) (omega arith) early)
    ∙ ap₂
        (λ j t.
          decode_run (waiting gs (q * gs) (present before ++ replicate j none) t)
            (data_packets after ++ ((f, true) ∷ [])))
        places (omega arith)
    ∙ ap
        (λ t.
          decode_run (waiting gs (q * gs) t (length before))
            (data_packets after ++ ((f, true) ∷ [])))
        (sym (append_assoc (present before) one (replicate (length after + 0) none)))
    ∙ fill q gs (length before) 0 (present before ++ one) after ((f, true) ∷ [])
        (omega (arith, size, ahead)) fits
        (subst (λ t. Numbered t after) (omega (arith, ahead)) late)
    ∙ ap (λ t. decode_run (waiting gs (q * gs) t (length before + length after)) ((f, true) ∷ []))
        (ap (λ t. (present before ++ one) ++ t) (append-nil (present after))
          ∙ append_assoc (present before) one (present after))

-- The FEC packet of a group that starts with the number `b`.
fec_of :
    (b : ℕ) (before after : List RtpPacket) (m : RtpPacket) (e : XorFecEncoder)
    → e.count ≡ 0
    → length (before ++ (m ∷ after)) ≡ e.group_size
    → b < 2 ^ 16
    → Numbered b (before ++ (m ∷ after))
    → (f : RtpPacket) × ((encode_run e (before ++ (m ∷ after))).0 ≡ f ∷ [])
      × (payload_bytes f ≡ xor_all [] (before ++ (m ∷ after)))
      × (timestamp f ≡ b)
fec_of b [] after m e start size fits n =
    let (f, runs, body, base) = encode_group m after e start size (omega (arith, n.0)) in
    (f, ap (λ t. t.0) runs, body, base ∙ n.0)
fec_of b (p ∷ ps) after m e start size fits n =
    let (f, runs, body, base) =
      encode_group p (ps ++ (m ∷ after)) e start size (omega (arith, n.0)) in
    (f, ap (λ t. t.0) runs, body, base ∙ n.0)

one_recovered :
    (q gs : ℕ) (before after : List RtpPacket) (m f : RtpPacket)
    → Numbered (q * gs) (before ++ (m ∷ after))
    → length (before ++ (m ∷ after)) ≡ gs
    → 2 ≤ gs
    → q * gs + gs ≤ 2 ^ 16
    → payload_bytes f ≡ xor_all [] (before ++ (m ∷ after))
    → timestamp f ≡ q * gs
    → (decode_run (new_decoder gs) (arrivals before after f)).0
      ≡ recovered (q * gs) before after m ∷ []
one_recovered q gs before after m f n h two fits body base =
    ap (λ t. t.0)
      (started q gs before after m f n h two fits ∙ all_but_one q gs before after m f n h fits)
    ∙ (let last =
          decode-fec (q * gs) gs (length before + length after) before after m f h body
            (ap (λ t. t % 2 ^ 16) base ∙ omega (arith, fits, two)) in
        unfold decode_run in ap (λ t. cons_some t.0 []) last)

-- An encoder at the start of a group is fed the packets of the group, which carry consecutive 16-bit
-- numbers from a multiple of the group size on. A new decoder that is fed all of them but one, in their
-- order, and then the FEC packet, where at least one data packet arrives, returns one packet: with the
-- number of the lost one and with its payload, padded with zeros to the longest of the group.
pub lost_packet :
    (q : ℕ) (before after : List RtpPacket) (m : RtpPacket) (e : XorFecEncoder) (i : ℕ)
    → e.count ≡ 0
    → length (before ++ (m ∷ after)) ≡ e.group_size
    → 2 ≤ e.group_size
    → q * e.group_size + e.group_size ≤ 2 ^ 16
    → Numbered (q * e.group_size) (before ++ (m ∷ after))
    → (f p : RtpPacket) × ((encode_run e (before ++ (m ∷ after))).0 ≡ f ∷ [])
      × ((decode_run (new_decoder e.group_size) (arrivals before after f)).0 ≡ p ∷ [])
      × (sequence p ≡ sequence m)
      × (byte_at (payload_bytes p) i ≡ byte_at (payload_bytes m) i)
      × (length (payload_bytes p) ≡ longest (before ++ (m ∷ after)))
lost_packet q before after m e i start size two fits n =
    let gs = e.group_size in
    let b = q * e.group_size in
    let (f, runs, body, base) = fec_of b before after m e start size (omega (arith, fits, two)) n in
    let (_, at, _) = Numbered-split b before m after n in
    let inside : length before < gs = omega (arith, size, length-append before (m ∷ after)) in
    (
      f,
      recovered b before after m,
      runs,
      one_recovered q gs before after m f n size two fits body base,
      recovered-sequence b before after m ∙ omega (arith, fits, inside, at),
      recovered-byte b before after m i,
      recovered-length b before after m,
    )
