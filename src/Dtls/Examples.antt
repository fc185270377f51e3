-- ===== src/Dtls/Examples.antt =====
-- Tests and witnesses: a library whose session is the bytes that wait in the BIO.
use cpp_meet.Common.{◌≡◌, refl, true, false, none, some, [], ◌∷◌, ◌++◌, arith, take, drop}
use cpp_meet.Common.Text.{codes}
use cpp_meet.Wire.{Bytes}
use cpp_meet.Rtp.Packet.{RtpPacket}
use cpp_meet.Rtp.Packet as Packet
use cpp_meet.Stun.Message as Message
use cpp_meet.Stun.Message.{StunMessage}
use cpp_meet.Dtls.{
  DtlsTransport, OpenSsl, hex_digit, hex_rest, hex_text, is_dtls, local_fingerprint, pending_send,
}
use cpp_meet.Dtls.Sending.{IsMemoryBio, IsSent, pending_send-IsSent}
use cpp_meet.Dtls.Demux.{other_protocols}
use cpp_meet.Dtls.Setup.{rbio, Outcomes, init, init_ssl, destroy, generate_self_signed_cert}
use cpp_meet.Dtls.Setup.Ownership.{lifetime, times_made, times_released}

abbrev digest : Bytes
digest = 0xA0 ∷ 7 ∷ []

abbrev buffer : OpenSsl
buffer = record {
  Ssl = Bytes;
  bio_write = λ d s. s;
  bio_read = λ n s. (take n s, drop n s);
  ssl_do_handshake = λ s. (true, s);
  handle_timeout = λ s. s;
  ssl_write = λ d s. s ++ d;
  ssl_read = λ n s. ([], s);
  export_keying_material = λ label n s. none;
  certificate_sha256 = λ s. some digest;
}

buffer-IsMemoryBio : IsMemoryBio buffer (λ s. s)
buffer-IsMemoryBio = record { front = λ n s. refl; rest = λ n s. refl }

abbrev transport : DtlsTransport Bytes
transport = record { is_server = true; ssl = 22 ∷ 254 ∷ 253 ∷ []; handshake_done = false }

pending_send-IsSent_example :
    IsSent buffer (λ s. s) buffer-IsMemoryBio transport (pending_send buffer 4 transport)
pending_send-IsSent_example =
    pending_send-IsSent buffer (λ s. s) buffer-IsMemoryBio 4 transport (omega arith)

fingerprint_text : local_fingerprint buffer transport ≡ codes "A0:07"
unfolding local_fingerprint hex_text hex_rest hex_digit
fingerprint_text = refl

abbrev rtp : Bytes
rtp = 0x80 ∷ 96 ∷ 0 ∷ 1 ∷ 0 ∷ 0 ∷ 0 ∷ 0 ∷ 0 ∷ 0 ∷ 0 ∷ 9 ∷ []

abbrev empty_packet : RtpPacket
empty_packet = record { buf = []; payload_offset = 12 }

abbrev request : StunMessage
request = record { kind = 1; transaction_id = []; attrs = [] }

rtp_parses : (Packet.parse empty_packet rtp).0 ≡ true
unfolding Packet.parse
rtp_parses = refl

other_protocols_example : (is_dtls rtp ≡ false) × (is_dtls (Message.serialize request) ≡ false)
other_protocols_example =
    other_protocols empty_packet rtp request (omega arith) rtp_parses (omega arith)

abbrev no_certificate : Outcomes
no_certificate = record {
  ctx_made = true;
  pkey_made = true;
  rsa_made = true;
  x509_made = false;
  ssl_made = true;
  rbio_made = true;
  wbio_made = true;
}

abbrev one_bio : Outcomes
one_bio = record no_certificate { x509_made = true; wbio_made = false }

-- The first BIO is neither freed nor passed on if the second one is not made.
one_bio_made : times_made rbio (lifetime true one_bio) ≡ 1
unfolding init init_ssl destroy generate_self_signed_cert
one_bio_made = refl

one_bio_lost : times_released rbio (lifetime true one_bio) ≡ 0
unfolding init init_ssl destroy generate_self_signed_cert
one_bio_lost = refl
