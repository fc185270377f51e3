-- ===== src/Dtls/Setup.antt =====
-- `init`, `generate_self_signed_cert` and the destructor, as the calls of OpenSSL that they make, in order.
-- What the calls that create something give is an argument.
pub mod Ownership
use cpp_meet.Common.{ℕ, zero, suc, ◌+◌, Bool, true, false, List, [], ◌∷◌, ◌++◌, if◌then◌else◌, ◌&&◌}
use cpp_meet.Common.Text.{codes}
use cpp_meet.Wire.{Bytes}

-- What the code makes or frees.
pub data Object : Type 0 where
  ctx : Object
  ssl : Object
  rbio : Object
  wbio : Object
  pkey : Object
  rsa : Object
  x509 : Object

-- `gives` is the passing of an object to another one, which frees it.
pub data Call : Type 0 where
  makes : Object → Call
  frees : Object → Call
  gives : Object → Call
  method : Bool → Call
  serial_number : ℕ → Call
  not_before_ago : ℕ → Call
  not_after_in : ℕ → Call
  set_pubkey : Call
  common_name : Bytes → Call
  set_issuer : Call
  sign_sha256 : Call
  use_certificate : Call
  use_private_key : Call
  cipher_list : Bytes → Call
  verify_none : Call
  use_srtp : Bytes → Call
  eof_return : Object → Call
  accept_state : Call
  connect_state : Call

-- Which calls succeed.
pub record Outcomes : Type 0 where
  pub ctx_made : Bool
  pub pkey_made : Bool
  pub rsa_made : Bool
  pub x509_made : Bool
  pub ssl_made : Bool
  pub rbio_made : Bool
  pub wbio_made : Bool

-- The pointers of the class, set or null.
pub record Handles : Type 0 where
  pub ctx_ : Bool
  pub ssl_ : Bool
  pub rbio_ : Bool
  pub wbio_ : Bool

abbrev pub no_handles : Handles
no_handles = record { ctx_ = false; ssl_ = false; rbio_ = false; wbio_ = false }

-- The calls that fill in and load the certificate.
abbrev certificate_calls : List Call
certificate_calls =
    serial_number 1
    ∷ not_before_ago 31536000
    ∷ not_after_in 31536000
    ∷ set_pubkey
    ∷ common_name (codes "dtls_test")
    ∷ set_issuer
    ∷ sign_sha256
    ∷ use_certificate
    ∷ use_private_key
    ∷ frees x509
    ∷ frees pkey
    ∷ []

unfoldable pub generate_self_signed_cert : Outcomes → Bool × List Call
generate_self_signed_cert o =
    if o.pkey_made
    then (if o.rsa_made
        then (if o.x509_made
            then (true, makes pkey ∷ makes rsa ∷ gives rsa ∷ makes x509 ∷ certificate_calls)
            else (false, makes pkey ∷ makes rsa ∷ gives rsa ∷ frees pkey ∷ []))
        else (false, makes pkey ∷ frees pkey ∷ []))
    else (false, [])

abbrev made : Bool → Object → List Call
made true x = makes x ∷ []
made false x = []

-- `init` behind the certificate.
unfoldable pub init_ssl : Bool → Outcomes → Bool × (Handles × List Call)
init_ssl is_server o =
    if o.ssl_made
    then (if o.rbio_made && o.wbio_made
        then (
          true,
          (
            record { ctx_ = true; ssl_ = true; rbio_ = true; wbio_ = true },
            makes ssl
                ∷ makes rbio
                ∷ makes wbio
                ∷ eof_return rbio
                ∷ eof_return wbio
                ∷ gives rbio
                ∷ gives wbio
                ∷ (if is_server then accept_state else connect_state)
                ∷ [],
          ),
        )
        else (
          false,
          (
            record { ctx_ = true; ssl_ = true; rbio_ = o.rbio_made; wbio_ = o.wbio_made },
            makes ssl ∷ (made o.rbio_made rbio ++ made o.wbio_made wbio),
          ),
        ))
    else (false, (record no_handles { ctx_ = true }, []))

abbrev behind_certificate : Bool → Outcomes → Bool × List Call → Bool × (Handles × List Call)
behind_certificate is_server o (false, calls) = (false, (no_handles, calls ++ (frees ctx ∷ [])))
behind_certificate is_server o (true, calls) =
    let (done, (handles, later)) = init_ssl is_server o in
    (
      done,
      (
        handles,
        calls
            ++ (cipher_list
                  (codes "DEFAULT:!NULL:!aNULL:!SHA256:!SHA384:!aECDH:!AESGCM+AES256:!aPSK")
                ∷ verify_none
                ∷ use_srtp (codes "SRTP_AES128_CM_SHA1_80")
                ∷ later),
      ),
    )

-- The result, the pointers, and the calls, of a transport that was just constructed.
unfoldable pub init : Bool → Outcomes → Bool × (Handles × List Call)
init is_server o =
    if o.ctx_made
    then (let (done, (handles, calls)) =
          behind_certificate is_server o (generate_self_signed_cert o) in
        (done, (handles, method is_server ∷ makes ctx ∷ calls)))
    else (false, (no_handles, method is_server ∷ []))

unfoldable pub destroy : Handles → List Call
destroy h = (if h.ssl_ then frees ssl ∷ [] else []) ++ (if h.ctx_ then frees ctx ∷ [] else [])
