-- ===== src/Rtcp/Examples.antt =====
-- Runs of the RTCP packets, and their theorems at concrete packets.
use cpp_meet.Common.{◌≡◌, refl, true, [], ◌∷◌, ◌++◌, arith}
use cpp_meet.Wire.{u16_bytes, u32_bytes}
use cpp_meet.Rtcp.Sr
use cpp_meet.Rtcp.Sr.{RtcpSr}
use cpp_meet.Rtcp.Nack
use cpp_meet.Rtcp.Nack.{RtcpNack}
use cpp_meet.Rtcp.Nack.RoundTrip

abbrev report : RtcpSr
report = record {
  ssrc = 0x12345678;
  ntp_sec = 0xFFFFFFFF;
  ntp_frac = 0;
  rtp_timestamp = 90000;
  packet_count = 7;
  octet_count = 8000;
}

abbrev blank : RtcpSr
blank = record {
  ssrc = 0;
  ntp_sec = 0;
  ntp_frac = 0;
  rtp_timestamp = 0;
  packet_count = 0;
  octet_count = 0;
}

parse-serialize_report_example :
    Sr.parse blank (Sr.serialize report ++ (1 ∷ 2 ∷ [])) ≡ (true, report)
parse-serialize_report_example = Sr.parse-serialize_report blank report (1 ∷ 2 ∷ []) (omega arith)

abbrev request : RtcpNack
request = record { sender_ssrc = 1; media_ssrc = 2; lost_seqs = 130 ∷ 100 ∷ 116 ∷ 101 ∷ 100 ∷ [] }

abbrev empty_request : RtcpNack
empty_request = record { sender_ssrc = 0; media_ssrc = 0; lost_seqs = [] }

-- 101 and 116 go into the mask of 100, and 130 takes a pair of its own.
request_bytes :
    Nack.serialize request
    ≡ 0x81 ∷ 205 ∷ 0 ∷ 4 ∷ 0 ∷ 0 ∷ 0 ∷ 1 ∷ 0 ∷ 0 ∷ 0 ∷ 2 ∷ 0 ∷ 100 ∷ 0x80 ∷ 0x01 ∷ 0 ∷ 130 ∷ 0 ∷ 0
      ∷ []
unfolding Nack.serialize Nack.nack_pairs Nack.pack_pairs Nack.collect_blp Nack.skip_covered
    Nack.pair_bytes Nack.unique Nack.sort Nack.insert_sorted u16_bytes u32_bytes
request_bytes = refl

parse-serialize_request_example :
    Nack.parse empty_request (Nack.serialize request)
    ≡ (true, record request { lost_seqs = Nack.ordered request.lost_seqs })
parse-serialize_request_example =
    RoundTrip.parse-serialize_request empty_request request (omega arith) (omega arith)
      (omega arith)

ordered-request : Nack.ordered request.lost_seqs ≡ 100 ∷ 101 ∷ 116 ∷ 130 ∷ []
unfolding Nack.unique Nack.sort Nack.insert_sorted
ordered-request = refl
