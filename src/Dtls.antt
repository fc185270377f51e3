-- ===== src/Dtls.antt =====
-- `DtlsTransport` of module04_dtls_srtp/src/dtls_transport.cpp and include/dtls/dtls_transport.h behind a
-- successful `init`, of which Setup is about. OpenSSL is a parameter. What a call of it reads is empty
-- where the call gives zero or an error.
pub mod Setup
pub mod Sending
pub mod Fingerprint
pub mod Demux
mod Examples
use cpp_meet.Common.{
  ℕ, zero, suc, ◌+◌, ◌/◌, ◌%◌, Bool, true, false, ◌&&◌, Option, none, some, List, [], ◌∷◌, ◌++◌,
  ltb, leb, if◌then◌else◌,
}
use cpp_meet.Common.Text.{codes}
use cpp_meet.Wire.{Bytes}

-- OpenSSL: an `SSL` with the two memory BIOs that `SSL_set_bio` gave it.
pub record OpenSsl : Type 1 where
  pub Ssl : Type 0
  pub bio_write : Bytes → Ssl → Ssl
  pub bio_read : ℕ → Ssl → Bytes × Ssl
  pub ssl_do_handshake : Ssl → Bool × Ssl
  pub handle_timeout : Ssl → Ssl
  pub ssl_write : Bytes → Ssl → Ssl
  pub ssl_read : ℕ → Ssl → Bytes × Ssl
  pub export_keying_material : Bytes → ℕ → Ssl → Option Bytes
  pub certificate_sha256 : Ssl → Option Bytes

pub record DtlsTransport (Ssl : Type 0) : Type 0 where
  pub is_server : Bool
  pub ssl : Ssl
  pub handshake_done : Bool

module _ (O : OpenSsl) where
  unfoldable pub feed_data : Bytes → DtlsTransport O.Ssl → DtlsTransport O.Ssl
  feed_data d t = record t { ssl = O.bio_write d t.ssl }

  unfoldable pub drive_handshake : DtlsTransport O.Ssl → DtlsTransport O.Ssl
  drive_handshake t =
      let (done, ssl) = O.ssl_do_handshake t.ssl in
      if t.handshake_done then t else record t { ssl = ssl; handshake_done = done }

  unfoldable pub drive_timeout : DtlsTransport O.Ssl → DtlsTransport O.Ssl
  drive_timeout t = if t.handshake_done then t else record t { ssl = O.handle_timeout t.ssl }

  -- A chunk in front of what is read later.
  abbrev pub append_read : Bytes → Option (Bytes × O.Ssl) → Option (Bytes × O.Ssl)
  append_read chunk none = none
  append_read chunk (some (later, left)) = some (chunk ++ later, left)

  -- The loop of `pending_send` and of `decrypt`: it reads until nothing comes. Out of fuel it is `none`.
  unfoldable pub read_all : (ℕ → O.Ssl → Bytes × O.Ssl) → ℕ → O.Ssl → Option (Bytes × O.Ssl)
  read_all read zero ssl = none
  read_all read (suc fuel) ssl =
      let (chunk, left) = read 4096 ssl in
      elim chunk [ [] ↦ some ([], left) | c ∷ cs ↦ append_read (c ∷ cs) (read_all read fuel left) ]

  abbrev pub with_ssl :
      DtlsTransport O.Ssl → Option (Bytes × O.Ssl) → Option (Bytes × DtlsTransport O.Ssl)
  with_ssl t none = none
  with_ssl t (some (d, ssl)) = some (d, record t { ssl = ssl })

  unfoldable pub pending_send : ℕ → DtlsTransport O.Ssl → Option (Bytes × DtlsTransport O.Ssl)
  pending_send fuel t = with_ssl t (read_all O.bio_read fuel t.ssl)

  unfoldable pub encrypt : ℕ → Bytes → DtlsTransport O.Ssl → Option (Bytes × DtlsTransport O.Ssl)
  encrypt fuel plain t =
      if t.handshake_done
      then pending_send fuel (record t { ssl = O.ssl_write plain t.ssl })
      else some ([], t)

  unfoldable pub decrypt : ℕ → DtlsTransport O.Ssl → Option (Bytes × DtlsTransport O.Ssl)
  decrypt fuel t =
      if t.handshake_done then with_ssl t (read_all O.ssl_read fuel t.ssl) else some ([], t)

  -- The sixty bytes, if there are any.
  unfoldable pub export_srtp_keying_material : DtlsTransport O.Ssl → Option Bytes
  export_srtp_keying_material t =
      if t.handshake_done
      then O.export_keying_material (codes "EXTRACTOR-dtls_srtp") 60 t.ssl
      else none

-- A digit in upper case.
unfoldable pub hex_digit : ℕ → ℕ
hex_digit n = if ltb n 10 then b'0' + n else 55 + n

abbrev pub hex_byte : ℕ → Bytes → Bytes
hex_byte b rest = hex_digit (b / 16) ∷ hex_digit (b % 16) ∷ rest

-- The later bytes, each with a colon in front.
unfoldable pub hex_rest : Bytes → Bytes
hex_rest [] = []
hex_rest (b ∷ bs) = b':' ∷ hex_byte b (hex_rest bs)

unfoldable pub hex_text : Bytes → Bytes
hex_text [] = []
hex_text (b ∷ bs) = hex_byte b (hex_rest bs)

unfoldable pub local_fingerprint : (O : OpenSsl) → DtlsTransport O.Ssl → Bytes
local_fingerprint O t = elim (O.certificate_sha256 t.ssl) [
  | none ↦ []
  | some digest ↦ hex_text digest
]

unfoldable pub is_dtls : Bytes → Bool
is_dtls [] = false
is_dtls (b ∷ bs) = leb 20 b && leb b 63
