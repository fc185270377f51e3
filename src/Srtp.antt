-- ===== src/Srtp.antt =====
-- `SrtpSession` of module04_dtls_srtp/src/srtp_session.cpp and include/dtls/srtp_session.h: AES in counter
-- mode and a truncated HMAC around an RTP packet. `AES_encrypt` under a key and `HMAC` with SHA-1 are
-- OpenSSL's and are parameters. `init` gives what `protect` and `unprotect` read; `protect_next` has the session behind a call.
pub mod KeyStream
pub mod Crypt
pub mod Protection
pub mod Reuse
mod Examples
use Prim.Native.Nat.{bit_or}
use cpp_meet.Common.{
  ℕ, zero, suc, ◌+◌, ◌-◌, ◌*◌, ◌/◌, ◌%◌, ◌^◌, Bool, true, false, List, [], ◌∷◌, ◌++◌, ◌==◌, ltb,
  if◌then◌else◌, length, take, drop, bit_xor,
}
use cpp_meet.Wire.{Bytes, read_u16, read_u32, u32_bytes}

pub record SrtpSession : Type 0 where
  pub master_key : Bytes
  pub master_salt : Bytes
  pub is_send : Bool
  pub roc : ℕ

-- The calls of OpenSSL: the block cipher under a key, and the digest under a key.
pub record Crypto : Type 0 where
  pub aes_encrypt : Bytes → Bytes → Bytes
  pub hmac_sha1 : Bytes → Bytes → Bytes

unfoldable pub init : Bytes → Bytes → Bool → SrtpSession
init key salt is_send = record {
  master_key = take 16 key;
  master_salt = take 14 salt;
  is_send = is_send;
  roc = 0;
}

-- `buf[i] ^= ks[i]`, as far as `ks` goes.
unfoldable pub xor_bytes : Bytes → Bytes → Bytes
xor_bytes [] ks = []
xor_bytes (b ∷ bs) [] = b ∷ bs
xor_bytes (b ∷ bs) (k ∷ ks) = bit_xor b k ∷ xor_bytes bs ks

-- The six bytes of the packet index.
abbrev pub index_bytes : ℕ → Bytes
index_bytes index =
    (index / 2 ^ 40 % 256)
    ∷ (index / 2 ^ 32 % 256)
    ∷ (index / 2 ^ 24 % 256)
    ∷ (index / 2 ^ 16 % 256)
    ∷ (index / 2 ^ 8 % 256)
    ∷ (index % 256)
    ∷ []

-- The salt and two zero bytes, with the SSRC taken into bytes 4 to 7 and the index into 8 to 13.
unfoldable pub build_aes_cm_iv : Bytes → ℕ → ℕ → Bytes
build_aes_cm_iv salt ssrc index =
    take 4 salt ++ xor_bytes (drop 4 (salt ++ (0 ∷ 0 ∷ []))) (u32_bytes ssrc ++ index_bytes index)

-- The loop that counts up: the bytes, and whether the carry runs out at their front.
unfoldable pub count_up : Bytes → Bytes × Bool
count_up [] = ([], true)
count_up (b ∷ bs) =
    let (rest, carry) = count_up bs in
    if carry then ((b + 1) % 256 ∷ rest, (b + 1) % 256 == 0) else (b ∷ rest, false)

-- `while (pos < len)`: sixteen bytes a round, so that the length is fuel enough.
unfoldable pub counter_loop : ℕ → Crypto → Bytes → Bytes → Bytes → Bytes
counter_loop zero c key counter buf = []
counter_loop (suc fuel) c key counter [] = []
counter_loop (suc fuel) c key counter (b ∷ bs) =
    xor_bytes (take 16 (b ∷ bs)) (c.aes_encrypt key counter)
    ++ counter_loop fuel c key (count_up counter).0 (drop 16 (b ∷ bs))

-- `index` is a `uint32_t` here.
unfoldable pub aes_cm_xor : Crypto → SrtpSession → Bytes → ℕ → ℕ → Bytes
aes_cm_xor c s buf ssrc index =
    counter_loop (length buf) c s.master_key (build_aes_cm_iv s.master_salt ssrc (index % 2 ^ 32))
      buf

unfoldable pub hmac_sha1_80 : Crypto → Bytes → Bytes → Bytes
hmac_sha1_80 c d key = take 10 (c.hmac_sha1 key d)

-- ROC * 2^16 + SEQ, as a `uint64_t`.
abbrev pub pkt_index : SrtpSession → Bytes → ℕ
pkt_index s d = s.roc * 2 ^ 16 + read_u16 d 2

-- The header as it is, and the payload with the key stream taken into it.
unfoldable pub crypt : Crypto → SrtpSession → Bytes → Bytes
crypt c s d = take 12 d ++ aes_cm_xor c s (drop 12 d) (read_u32 d 8) (pkt_index s d)

unfoldable pub protect : Crypto → SrtpSession → Bytes → Bool × Bytes
protect c s d =
    if ltb (length d) 12
    then (false, d)
    else (let e = crypt c s d in (true, e ++ hmac_sha1_80 c e s.master_key))

-- A call of `protect` with the session behind it: no member is written, `roc_` neither.
unfoldable pub protect_next : Crypto → SrtpSession → Bytes → (Bool × Bytes) × SrtpSession
protect_next c s d = (protect c s d, s)

-- `diff`, over the ten bytes of the tag.
unfoldable pub tag_diff : Bytes → Bytes → ℕ
tag_diff [] ys = 0
tag_diff (x ∷ xs) [] = bit_or x (tag_diff xs [])
tag_diff (x ∷ xs) (y ∷ ys) = bit_or (bit_xor x y) (tag_diff xs ys)

unfoldable pub unprotect : Crypto → SrtpSession → Bytes → Bool × Bytes
unprotect c s d =
    if ltb (length d) (12 + 10)
    then (false, d)
    else (let e = take (length d - 10) d in
        if tag_diff (hmac_sha1_80 c e s.master_key) (drop (length d - 10) d) == 0
        then (true, crypt c s e)
        else (false, d))
