-- ===== src/Rtp/Packet/Examples.antt =====
-- Runs of `RtpPacket`, and its theorems at concrete packets.
use cpp_meet.Common.{◌≡◌, ◌↔◌, refl, true, false, some, [], ◌∷◌, arith}
use cpp_meet.Wire.{Bytes, read_u16, u16_bytes, u32_bytes}
use cpp_meet.Rtp.Packet.{RtpPacket, default, parse, build, fixed_header, built_body, seq_gt}
use cpp_meet.Rtp.Packet.Parse.{IsRtp, parse_iff}
use cpp_meet.Rtp.Packet.Build.{Carries, parse-build}

abbrev two_bytes : Bytes
two_bytes = 7 ∷ 9 ∷ []

abbrev marked : RtpPacket
marked = build default 96 65535 5 0xFEC00000 (some two_bytes) 2 true

-- Version 2, one contributing source, an extension of one word, one byte of payload.
abbrev with_extension : Bytes
with_extension =
    0x91 ∷ 0x60 ∷ 0 ∷ 1 ∷ 0 ∷ 0 ∷ 0 ∷ 2 ∷ 0 ∷ 0 ∷ 0 ∷ 3 ∷ 9 ∷ 9 ∷ 9 ∷ 9 ∷ 0 ∷ 0 ∷ 0 ∷ 1 ∷ 8 ∷ 8 ∷ 8
    ∷ 8 ∷ 7 ∷ []

abbrev past_extension : RtpPacket
past_extension = record { buf = with_extension; payload_offset = 24 }

marked_bytes :
    marked.buf ≡ 0x80 ∷ 0xE0 ∷ 255 ∷ 255 ∷ 0 ∷ 0 ∷ 0 ∷ 5 ∷ 0xFE ∷ 0xC0 ∷ 0 ∷ 0 ∷ 7 ∷ 9 ∷ []
unfolding build fixed_header built_body u16_bytes u32_bytes
marked_bytes = refl

extension_skipped : parse default with_extension ≡ (true, past_extension)
unfolding parse read_u16
extension_skipped = refl

-- With the last byte of the extension cut off, `parse` refuses.
extension_cut :
    (parse default (0x90 ∷ 0x60 ∷ 0 ∷ 1 ∷ 0 ∷ 0 ∷ 0 ∷ 2 ∷ 0 ∷ 0 ∷ 0 ∷ 3 ∷ 0 ∷ 0 ∷ 0 ∷ 1 ∷ 8 ∷ [])).0
    ≡ false
unfolding parse read_u16
extension_cut = refl

seq_gt_wraps : seq_gt 3 65533 ≡ true
unfolding seq_gt
seq_gt_wraps = refl

parse_iff_example : ((parse default with_extension).0 ≡ true) ↔ IsRtp with_extension
parse_iff_example = parse_iff default with_extension (omega arith)

parse-build_example :
    Carries marked 96 65535 5 0xFEC00000 true two_bytes
    × (parse default marked.buf ≡ (true, marked))
parse-build_example =
    parse-build default default 96 65535 5 0xFEC00000 true two_bytes (omega arith) (omega arith)
      (omega arith) (omega arith)
