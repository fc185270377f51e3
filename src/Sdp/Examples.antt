-- ===== src/Sdp/Examples.antt =====
-- Tests and witnesses on small descriptions.
use cpp_meet.Common.{◌≡◌, refl, [], ◌∷◌, ◌++◌, arith, none, some}
use cpp_meet.Common.Decimal.{is_digit, is_space, read_number, read_magnitude, skip_spaces}
use cpp_meet.Common.Text.{codes}
use cpp_meet.Sdp.{Sdp, SdpMedia, new_sdp, parse, put, serialize, stoi, read_int, int_of}
use cpp_meet.Sdp.RoundTrip.{IsPlain, IsPlainMedia, parse-serialize, parse_throws}
use cpp_meet.Sdp.Lines.{lacks-IsFree}

abbrev audio : SdpMedia
audio = record {
  type = codes "audio";
  port = 9;
  proto = codes "RTP";
  fmts = 111 ∷ 0 ∷ [];
  fingerprint = codes "AA:BB";
  ice_ufrag = codes "u";
  ice_pwd = codes "p";
  candidate = [];
  rtpmap = (111, codes "opus/48000") ∷ [];
}

abbrev call : Sdp
call = record new_sdp { origin = codes "- 1 1"; media = audio ∷ [] }

audio-IsPlainMedia : IsPlainMedia audio
unfolding is_space
audio-IsPlainMedia = record {
  type_IsWord = ((λ e. cc), (refl, (refl, (refl, (refl, (refl, tt))))));
  port_lt = omega arith;
  proto_IsWord = ((λ e. cc), (refl, (refl, (refl, tt))));
  fmts_lt = (omega arith, (omega arith, tt));
  fingerprint_free = lacks-IsFree 10 (codes "AA:BB") refl;
  ice_ufrag_free = lacks-IsFree 10 (codes "u") refl;
  ice_pwd_free = lacks-IsFree 10 (codes "p") refl;
  candidate_free = tt;
  rtpmap_free = ((omega arith, lacks-IsFree 10 (codes "opus/48000") refl), tt);
}

call-IsPlain : IsPlain call
call-IsPlain = record {
  version_free = lacks-IsFree 10 (codes "0") refl;
  origin_free = lacks-IsFree 10 (codes "- 1 1") refl;
  session_name_free = lacks-IsFree 10 (codes "-") refl;
  media_IsPlain = (audio-IsPlainMedia, tt);
}

parse-serialize_example : parse (serialize call) ≡ some call
parse-serialize_example = parse-serialize call call-IsPlain

stoi_letters : stoi (codes "x") ≡ none
unfolding stoi read_int int_of skip_spaces is_space read_number read_magnitude is_digit
stoi_letters = refl

parse_throws_example :
    parse (
      put
        (codes "m=" ++ codes "audio")
        (put (codes "a=rtpmap:" ++ (codes "x" ++ (32 ∷ codes "opus"))) []))
    ≡ none
parse_throws_example =
    parse_throws (codes "audio") (codes "x") (codes "opus") []
      (lacks-IsFree 10 (codes "audio") refl) (lacks-IsFree 10 (codes "x") refl)
      (lacks-IsFree 32 (codes "x") refl) (lacks-IsFree 10 (codes "opus") refl) stoi_letters
