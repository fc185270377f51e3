-- ===== src/Stun/Message/Address.antt =====
-- XOR-MAPPED-ADDRESS: what `add_xor_mapped_address` adds, `get_xor_mapped_address` finds.
use cpp_meet.Common.{
  ℕ, ◌/◌, ◌^◌, ◌<◌, ◌≡◌, ◌≢◌, refl, ap, ◌∙◌, some, [], ◌∷◌, ◌++◌, arith, length, All, bit_xor,
  append_assoc,
}
use cpp_meet.Common.Bits.{bit_xor_cancel, bit_xor-lt}
use cpp_meet.Wire.{Bytes, read_u16, read_u32, u16_bytes, u32_bytes}
use cpp_meet.Stun.StunAttr
use cpp_meet.Stun.Message.{
  Attrs, StunMessage, add_xor_mapped_address, get_xor_mapped_address, magic_cookie,
  xor_address_bytes,
}

-- No attribute of this type.
abbrev pub Lacks : ℕ → Attrs → Type 0
Lacks attr = All (λ (a : ℕ × Bytes). a.0 ≢ attr)

address_fields :
    (x p : ℕ)
    → x < 2 ^ 32
    → p < 2 ^ 16
    → (length (xor_address_bytes x p) ≡ 8)
      × (read_u32 (xor_address_bytes x p) 4 ≡ bit_xor x magic_cookie)
      × (read_u16 (xor_address_bytes x p) 2 ≡ bit_xor p (magic_cookie / 2 ^ 16))
unfolding xor_address_bytes u16_bytes u32_bytes read_u16 read_u32
address_fields x p hx hp = (
  refl,
  omega (arith, bit_xor-lt 32 x magic_cookie hx (omega arith)),
  omega (arith, bit_xor-lt 16 p 0x2112 hp (omega arith)),
)

pub length-xor_address_bytes : (x p : ℕ) → length (xor_address_bytes x p) ≡ 8
unfolding xor_address_bytes u16_bytes u32_bytes
length-xor_address_bytes x p = refl

get-append :
    (htonl : ℕ → ℕ) (attrs : Attrs) (x p : ℕ) (more : Attrs)
    → x < 2 ^ 32
    → p < 2 ^ 16
    → Lacks StunAttr.xor_mapped_address attrs
    → get_xor_mapped_address htonl
        (attrs ++ ((StunAttr.xor_mapped_address, xor_address_bytes x p) ∷ more))
      ≡ some (htonl x, p)
unfolding get_xor_mapped_address
get-append htonl [] x p more hx hp l =
    let (eight, address, port) = address_fields x p hx hp in
    ground (
      arith,
      eight,
      address,
      port,
      bit_xor_cancel x magic_cookie,
      bit_xor_cancel p (magic_cookie / 2 ^ 16),
    )
get-append htonl ((t, v) ∷ attrs) x p more hx hp l =
    ground (arith, l.0, get-append htonl attrs x p more hx hp l.1)

-- From a message without such an attribute, the address and port that were added are found again,
-- whatever is added behind them.
pub get-add_xor_mapped_address :
    (ntohl htonl : ℕ → ℕ) (m : StunMessage) (ip port : ℕ) (more : Attrs)
    → ntohl ip < 2 ^ 32
    → htonl (ntohl ip) ≡ ip
    → port < 2 ^ 16
    → Lacks StunAttr.xor_mapped_address m.attrs
    → get_xor_mapped_address htonl ((add_xor_mapped_address ntohl m ip port).attrs ++ more)
      ≡ some (ip, port)
unfolding add_xor_mapped_address
get-add_xor_mapped_address ntohl htonl m ip port more hip inverse hp l =
    let added : ℕ × Bytes = (StunAttr.xor_mapped_address, xor_address_bytes (ntohl ip) port) in
    ap (get_xor_mapped_address htonl) (append_assoc m.attrs (added ∷ []) more)
    ∙ get-append htonl m.attrs (ntohl ip) port more hip hp l
    ∙ ap (λ (t : ℕ). some (t, port)) inverse
