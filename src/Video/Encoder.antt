-- ===== src/Video/Encoder.antt =====
-- `H264Encoder` of module07_video/src/h264_encoder.cpp and include/video/h264_encoder.h. x264 is a parameter.
-- Sizes are taken to be such that `width * height` is an `int`.
pub mod Planes
use cpp_meet.Common.{
  ℕ, ◌+◌, ◌*◌, ◌/◌, Bool, true, false, Option, none, some, List, [], ◌∷◌, map, ltb, if◌then◌else◌,
  length, take, drop,
}
use cpp_meet.Common.Text.{codes}
use cpp_meet.Wire.{Bytes}
use cpp_meet.Video.Packetizer.{NalUnit}

pub record YuvFrame : Type 0 where
  pub width : ℕ
  pub height : ℕ
  pub yuv : Bytes
  pub timestamp_ms : ℕ

-- What the code sets of `x264_param_t`; ABR, I420 and no log are constants.
pub record Param : Type 0 where
  pub i_width : ℕ
  pub i_height : ℕ
  pub i_fps_num : ℕ
  pub i_fps_den : ℕ
  pub i_keyint_max : ℕ
  pub i_bitrate : ℕ
  pub b_annexb : Bool

-- The planes of `x264_picture_t` and its time.
pub record Picture : Type 0 where
  pub plane_y : Bytes
  pub plane_u : Bytes
  pub plane_v : Bytes
  pub i_pts : ℕ

-- x264: whether the preset and the profile are taken and the picture is allocated, the encoder if it opens, and
-- the payloads of a picture with its key frame flag, if it is encoded.
pub record X264 : Type 1 where
  pub Encoder : Type 0
  pub default_preset : Bytes → Bytes → Bool
  pub apply_profile : Param → Bytes → Bool
  pub picture_alloc : ℕ → ℕ → Bool
  pub encoder_open : Param → Option Encoder
  pub encoder_encode : Picture → Encoder → Option (List Bytes × Bool) × Encoder

pub record H264Encoder (E : Type 0) : Type 0 where
  pub enc : Option E
  pub width : ℕ
  pub height : ℕ

abbrev pub new_h264 : {E : Type 0} → H264Encoder E
new_h264 = record { enc = none; width = 0; height = 0 }

-- What the destructor frees, in order.
pub data Freed : Type 0 where
  picture : Freed
  encoder : Freed

unfoldable pub close_h264 : {E : Type 0} → H264Encoder E → H264Encoder E × List Freed
close_h264 h = elim h.enc [
  | none ↦ (h, [])
  | some e ↦ (record h { enc = none }, picture ∷ encoder ∷ [])
]

abbrev is_open : {E : Type 0} → Option E → Bool
is_open none = false
is_open (some e) = true

unfoldable pub y_size : {E : Type 0} → H264Encoder E → ℕ
y_size h = h.width * h.height

unfoldable pub uv_size : {E : Type 0} → H264Encoder E → ℕ
unfolding y_size
uv_size h = y_size h / 4

-- The three copies into `pic_in_`.
unfoldable pub picture_of : {E : Type 0} → H264Encoder E → YuvFrame → Picture
picture_of h frame = record {
  plane_y = take (y_size h) frame.yuv;
  plane_u = take (uv_size h) (drop (y_size h) frame.yuv);
  plane_v = take (uv_size h) (drop (y_size h + uv_size h) frame.yuv);
  i_pts = frame.timestamp_ms;
}

abbrev nal_unit : Bool → Bytes → NalUnit
nal_unit b_keyframe payload = record { bytes = payload; is_keyframe = b_keyframe }

-- The NAL units, none where the encoder fails.
abbrev units : Option (List Bytes × Bool) → List NalUnit
units none = []
units (some (nals, b_keyframe)) = map (nal_unit b_keyframe) nals

module _ (X : X264) where
  unfoldable pub init_h264 : ℕ → ℕ → ℕ → ℕ → H264Encoder X.Encoder → H264Encoder X.Encoder × Bool
  init_h264 width height fps bitrate_kbps h =
      let sized : H264Encoder X.Encoder = record h { width = width; height = height } in
      let param : Param = record {
        i_width = width;
        i_height = height;
        i_fps_num = fps;
        i_fps_den = 1;
        i_keyint_max = fps * 2;
        i_bitrate = bitrate_kbps;
        b_annexb = true;
      } in
      let enc = X.encoder_open param in
      if X.default_preset (codes "ultrafast") (codes "zerolatency")
      then (if X.apply_profile param (codes "baseline")
          then (if X.picture_alloc width height
              then (record sized { enc = enc }, is_open enc)
              else (sized, false))
          else (sized, false))
      else (sized, false)

  abbrev encode_with :
      YuvFrame → H264Encoder X.Encoder → Option X.Encoder → H264Encoder X.Encoder × List NalUnit
  encode_with frame h none = (h, [])
  encode_with frame h (some enc) =
      let (nals, enc_after) = X.encoder_encode (picture_of h frame) enc in
      if ltb (length frame.yuv) (y_size h + 2 * uv_size h)
      then (h, [])
      else (record h { enc = some enc_after }, units nals)

  unfoldable pub encode_frame :
      YuvFrame → H264Encoder X.Encoder → H264Encoder X.Encoder × List NalUnit
  encode_frame frame h = encode_with frame h h.enc
