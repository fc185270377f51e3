-- ===== src/Sdp/RoundTrip.antt =====
-- Whole descriptions: what `serialize` writes, `parse` reads; and where `parse` throws.
use cpp_meet.Common.{
  ℕ, ◌^◌, ◌<◌, ◌≡◌, ◌≢◌, refl, ap, sym, ◌∙◌, false, List, [], ◌∷◌, ◌++◌, arith, none, some, All,
  All-append, All-map, append_assoc, append-nil,
}
use cpp_meet.Common.Decimal.{decimal, int_text, is_space}
use cpp_meet.Common.Text.{codes}
use cpp_meet.Wire.{Bytes}
use cpp_meet.Sdp.{
  Sdp, SdpMedia, add_rtpmap, fmts_text, lines, media_text, media_value, medium_text, new_sdp, parse,
  put, put_attribute, read_field, read_line, read_lines, read_media, rtpmap_text, serialize, stoi,
}
use cpp_meet.Sdp.Attributes.{
  at, read-put_attribute, read-rtpmap_text, read_candidate, read_fingerprint, read_pwd, read_ufrag,
  read_attribute_rtpmap, read_line_attribute, IsFree-append, set_last,
}
use cpp_meet.Sdp.Lines.{IsFree, read, read-put, read_line_behind}
use cpp_meet.Sdp.Media.{IsWord, bare, read_media-media_value}
use cpp_meet.Sdp.Numbers.{decimal-IsFree, int_text-IsFree}

-- No text holds a newline, the two words of the `m=` line are words, and the numbers are of their types.
pub record IsPlainMedia (m : SdpMedia) : Type 0 where
  pub type_IsWord : IsWord m.type
  pub port_lt : m.port < 2 ^ 16
  pub proto_IsWord : IsWord m.proto
  pub fmts_lt : All (λ pt. pt < 2 ^ 32) m.fmts
  pub fingerprint_free : IsFree 10 m.fingerprint
  pub ice_ufrag_free : IsFree 10 m.ice_ufrag
  pub ice_pwd_free : IsFree 10 m.ice_pwd
  pub candidate_free : IsFree 10 m.candidate
  pub rtpmap_free : All (λ e. (e.0 < 2 ^ 32) × IsFree 10 e.1) m.rtpmap

pub record IsPlain (s : Sdp) : Type 0 where
  pub version_free : IsFree 10 s.version
  pub origin_free : IsFree 10 s.origin
  pub session_name_free : IsFree 10 s.session_name
  pub media_IsPlain : All IsPlainMedia s.media

word-IsFree : (w : Bytes) → IsWord w → IsFree 10 w
unfolding is_space
word-IsFree w (n, h) = All-map (λ c. is_space c ≡ false) (λ b. b ≢ 10) (λ c d. other c d) w h
  where
    other : (c : ℕ) → is_space c ≡ false → c ≢ 10
    other c d e = ground arith

fmts_text-IsFree : (pts : List ℕ) → IsFree 10 (fmts_text pts)
unfolding fmts_text
fmts_text-IsFree [] = tt
fmts_text-IsFree (pt ∷ pts) = (
  (λ e. omega arith),
  All-append (λ b. b ≢ 10) (int_text pt) (fmts_text pts) (int_text-IsFree 10 pt (omega arith))
      (fmts_text-IsFree pts),
)

media_value-IsFree : (m : SdpMedia) → IsPlainMedia m → IsFree 10 (media_value m)
unfolding media_value
media_value-IsFree m h =
    free m.type (32 ∷ (decimal m.port ++ (32 ∷ (m.proto ++ fmts_text m.fmts))))
      (word-IsFree m.type h.type_IsWord)
      (
        (λ e. omega arith),
        free (decimal m.port) (32 ∷ (m.proto ++ fmts_text m.fmts))
            (decimal-IsFree 10 m.port (omega arith))
            (
              (λ e. omega arith),
              free m.proto (fmts_text m.fmts) (word-IsFree m.proto h.proto_IsWord)
                  (fmts_text-IsFree m.fmts),
            ),
      )
  where
    free : (xs ys : Bytes) → IsFree 10 xs → IsFree 10 ys → IsFree 10 (xs ++ ys)
    free xs ys = All-append (λ b. b ≢ 10) xs ys

read_line_media :
    (m : SdpMedia) (s : Sdp)
    → IsPlainMedia m
    → read_line (codes "m=" ++ media_value m) s ≡ some (at s s.media (bare m))
unfolding read_line read_field
read_line_media m s h =
    ap (λ x. some (at s s.media x))
      (read_media-media_value m h.type_IsWord h.proto_IsWord h.port_lt h.fmts_lt)

-- The lines of a medium put it behind the others.
read-medium_text :
    (m : SdpMedia) (rest : Bytes) (s : Sdp)
    → IsPlainMedia m
    → read (medium_text m rest) s ≡ read rest (at s s.media m)
unfolding medium_text
read-medium_text m rest s h =
    let entries = rtpmap_text m.rtpmap rest in
    let candidate = put_attribute (codes "a=candidate:") m.candidate entries in
    let fingerprint = put_attribute (codes "a=fingerprint:") m.fingerprint candidate in
    let pwd = put_attribute (codes "a=ice-pwd:") m.ice_pwd fingerprint in
    let ufrag = put_attribute (codes "a=ice-ufrag:") m.ice_ufrag pwd in
    let x = record m { fingerprint = []; ice_pwd = []; candidate = []; rtpmap = [] } in
    let y = record m { fingerprint = []; candidate = []; rtpmap = [] } in
    let z = record m { candidate = []; rtpmap = [] } in
    read-put (codes "m=" ++ media_value m) ufrag s (at s s.media (bare m))
      (IsFree-append 10 (codes "m=") (media_value m) refl (media_value-IsFree m h))
      (read_line_media m s h)
    ∙ read-put_attribute (codes "ice-ufrag:") m.ice_ufrag pwd s s.media
        (λ v. record x { ice_ufrag = v }) refl h.ice_ufrag_free (read_ufrag (bare m))
    ∙ read-put_attribute (codes "ice-pwd:") m.ice_pwd fingerprint s s.media
        (λ v. record y { ice_pwd = v }) refl h.ice_pwd_free (read_pwd x)
    ∙ read-put_attribute (codes "fingerprint:") m.fingerprint candidate s s.media
        (λ v. record z { fingerprint = v }) refl h.fingerprint_free (read_fingerprint y)
    ∙ read-put_attribute (codes "candidate:") m.candidate entries s s.media
        (λ v. record m { candidate = v; rtpmap = [] }) refl h.candidate_free (read_candidate z)
    ∙ read-rtpmap_text m.rtpmap [] rest s s.media m h.rtpmap_free

read-media_text :
    (ms : List SdpMedia) (s : Sdp)
    → All IsPlainMedia ms
    → read (media_text ms) s ≡ some (record s { media = s.media ++ ms })
unfolding media_text read_lines lines
read-media_text [] s h = ap (λ t. some (record s { media = t })) (sym (append-nil s.media))
read-media_text (m ∷ ms) s (h, hs) =
    read-medium_text m (media_text ms) s h
    ∙ read-media_text ms (at s s.media m) hs
    ∙ ap (λ t. some (record s { media = t })) (append_assoc s.media (m ∷ []) ms)

-- A description whose texts hold no newline, whose media have a type and a protocol that are words, and
-- whose numbers are of their types, is read back by `parse` from what `serialize` writes.
pub parse-serialize : (s : Sdp) → IsPlain s → parse (serialize s) ≡ some s
unfolding parse serialize read_line read_field
parse-serialize s h =
    let named = put (codes "t=0 0") (media_text s.media) in
    let after = put (codes "s=" ++ s.session_name) named in
    let a = record new_sdp { version = s.version } in
    let b = record a { origin = s.origin } in
    let c = record b { session_name = s.session_name } in
    read-put (codes "v=" ++ s.version) (put (codes "o=" ++ s.origin) after) new_sdp a
      (IsFree-append 10 (codes "v=") s.version refl h.version_free) refl
    ∙ read-put (codes "o=" ++ s.origin) after a b
        (IsFree-append 10 (codes "o=") s.origin refl h.origin_free) refl
    ∙ read-put (codes "s=" ++ s.session_name) named b c
        (IsFree-append 10 (codes "s=") s.session_name refl h.session_name_free) refl
    ∙ read-put (codes "t=0 0") (media_text s.media) c c
        (IsFree-append 10 (codes "t=0 0") [] refl tt) refl
    ∙ read-media_text s.media c h.media_IsPlain

-- If an `a=rtpmap:` line stands directly behind an `m=` line and `stoi` finds no number in the bytes up to
-- the line's first space, then `parse` throws, whatever the `m=` line holds and whatever follows.
pub parse_throws :
    (value w codec rest : Bytes)
    → IsFree 10 value
    → IsFree 10 w
    → IsFree 32 w
    → IsFree 10 codec
    → stoi w ≡ none
    → parse (put (codes "m=" ++ value) (put (codes "a=rtpmap:" ++ (w ++ (32 ∷ codec))) rest)) ≡ none
unfolding parse read_line read_field add_rtpmap
parse_throws value w codec rest v n blank c e =
    let entry = codes "rtpmap:" ++ (w ++ (32 ∷ codec)) in
    let m = read_media value in
    read-put (codes "m=" ++ value) (put (codes "a=" ++ entry) rest) new_sdp (at new_sdp [] m)
      (IsFree-append 10 (codes "m=") value refl v) refl
    ∙ read_line_behind (codes "a=" ++ entry) rest (at new_sdp [] m) none
        (IsFree-append 10 (codes "a=rtpmap:") (w ++ (32 ∷ codec)) refl
          (All-append (λ b. b ≢ 10) w (32 ∷ codec) n ((λ i. omega arith), c)))
        (read_line_attribute entry new_sdp [] m
          ∙ ap (set_last new_sdp [])
              (read_attribute_rtpmap m w codec blank ∙ ap (add_rtpmap m codec) e))
