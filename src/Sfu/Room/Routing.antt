-- ===== src/Sfu/Room/Routing.antt =====
-- Who gets a packet, and what is in it; and the room over every sequence of calls.
use mathlib.Core.Path.{subst}
use cpp_meet.Common.{
  ℕ, ◌+◌, ◌^◌, ◌<◌, ◌≤◌, ◌≡◌, ◌⊎◌, sym, ap, ◌∙◌, false, not, ◌&&◌, some, List, [], ◌∷◌, ◌++◌, ◌==◌,
  arith, length, take, drop, length-append, length-take, length-drop, append_assoc, take-append,
  drop-append,
}
use cpp_meet.Common.Keys.{nat_eq, lookup}
use cpp_meet.Wire.{
  Bytes, read_u32, u32_bytes, read_u32-append, read_u32-u32_bytes, length-u32_bytes,
}
use cpp_meet.Sfu.Room.{
  SfuRoom, Sends, add_peer, add_unless, new_room, remove_peer, rewrite_ssrc, route_from, route_rtcp,
  route_rtp, send_to_others,
}
use cpp_meet.Sfu.Room.Peers.{
  member, Distinct, IsValid, new_room-IsValid, add_peer-IsValid, remove_peer-IsValid,
}

abbrev pub receivers : Sends → List ℕ
receivers [] = []
receivers ((p, d) ∷ sends) = p ∷ receivers sends

-- Every call carries these bytes.
abbrev pub AllCarry : Bytes → Sends → Type 0
AllCarry d [] = Unit
AllCarry d ((p, e) ∷ sends) = (e ≡ d) × AllCarry d sends

-- A packet goes to every peer but the sender, to each once, and to nobody else.
pub record Reaches (r : SfuRoom) (from : ℕ) (d : Bytes) (sends : Sends) : Type 0 where
  pub others : (k : ℕ) → member k (receivers sends) ≡ (not (k == from) && member k r.peers)
  pub once : Distinct (receivers sends)
  pub content : AllCarry d sends

receivers-others :
    (from k : ℕ) (d : Bytes) (ps : List ℕ)
    → member k (receivers (send_to_others from d ps)) ≡ (not (k == from) && member k ps)
unfolding send_to_others
receivers-others from k d [] = ground arith
receivers-others from k d (p ∷ ps) = ground (arith, receivers-others from k d ps)

Distinct-others :
    (from : ℕ) (d : Bytes) (ps : List ℕ)
    → Distinct ps
    → Distinct (receivers (send_to_others from d ps))
unfolding send_to_others
Distinct-others from d [] h = tt
Distinct-others from d (p ∷ ps) h =
    ground (arith, receivers-others from p d ps, Distinct-others from d ps h.1)

AllCarry-others : (from : ℕ) (d : Bytes) (ps : List ℕ) → AllCarry d (send_to_others from d ps)
unfolding send_to_others
AllCarry-others from d [] = tt
AllCarry-others from d (p ∷ ps) = ground (arith, AllCarry-others from d ps)

others-Reaches :
    (r : SfuRoom) (from : ℕ) (d : Bytes)
    → IsValid r
    → Reaches r from d (send_to_others from d r.peers)
others-Reaches r from d v = record {
  others = λ k. receivers-others from k d r.peers;
  once = Distinct-others from d r.peers v.distinct;
  content = AllCarry-others from d r.peers;
}

-- The copy differs from the packet in its SSRC alone.
pub record IsRewritten (d e : Bytes) (ssrc : ℕ) : Type 0 where
  pub same_length : length e ≡ length d
  pub ssrc_set : read_u32 e 8 ≡ ssrc
  pub same_head : take 8 e ≡ take 8 d
  pub same_tail : drop 12 e ≡ drop 12 d

rewrite_ssrc-IsRewritten :
    (d : Bytes) (ssrc : ℕ)
    → 12 ≤ length d
    → ssrc < 2 ^ 32
    → IsRewritten d (rewrite_ssrc d ssrc) ssrc
unfolding rewrite_ssrc
rewrite_ssrc-IsRewritten d ssrc h hs =
    let head : length (take 8 d) ≡ 8 = omega (arith, length-take 8 d) in
    record {
      same_length = omega (
        arith,
        head,
        length-append (take 8 d) (u32_bytes ssrc ++ drop 12 d),
        length-append (u32_bytes ssrc) (drop 12 d),
        length-u32_bytes ssrc,
        length-drop 12 d,
      );
      ssrc_set =
          read_u32-append (take 8 d) (u32_bytes ssrc ++ drop 12 d) 8 0 (omega (arith, head))
          ∙ read_u32-u32_bytes ssrc (drop 12 d) hs;
      same_head = take-append (take 8 d) (u32_bytes ssrc ++ drop 12 d) 8 (sym head);
      same_tail =
          ap (λ e. drop 12 e) (sym (append_assoc (take 8 d) (u32_bytes ssrc) (drop 12 d)))
          ∙ drop-append (take 8 d ++ u32_bytes ssrc) (drop 12 d) 12 (
              omega
                (arith, head, length-append (take 8 d) (u32_bytes ssrc), length-u32_bytes ssrc));
    }

routed :
    (r : SfuRoom) (from : ℕ) (d : Bytes) (ssrc : ℕ)
    → 12 ≤ length d
    → lookup from r.peer_ssrc_map ≡ some ssrc
    → route_rtp r from d ≡ send_to_others from (rewrite_ssrc d ssrc) r.peers
unfolding route_rtp
routed r from d ssrc h e = ground (arith, ap (route_from r from d) e)

broadcast :
    (r : SfuRoom) (from : ℕ) (d : Bytes)
    → 4 ≤ length d
    → route_rtcp r from d ≡ send_to_others from d r.peers
unfolding route_rtcp
broadcast r from d h = ground arith

-- In a valid room an RTP packet of at least twelve bytes from a registered peer goes to every other
-- peer, once each, and to nobody else, with the sender's own SSRC in bytes 8 to 11 and every other
-- byte as it was.
pub route_rtp-Reaches :
    (r : SfuRoom) (from : ℕ) (d : Bytes) (ssrc : ℕ)
    → IsValid r
    → r.next_ssrc < 2 ^ 32
    → 12 ≤ length d
    → lookup from r.peer_ssrc_map ≡ some ssrc
    → (e : Bytes) × IsRewritten d e ssrc × Reaches r from e (route_rtp r from d)
route_rtp-Reaches r from d ssrc v room h e = (
  rewrite_ssrc d ssrc,
  rewrite_ssrc-IsRewritten d ssrc h (omega (arith, v.given from ssrc e)),
  subst (Reaches r from (rewrite_ssrc d ssrc)) (sym (routed r from d ssrc h e))
      (others-Reaches r from (rewrite_ssrc d ssrc) v),
)

-- In a valid room an RTP packet that is shorter than twelve bytes, or from nobody in the room, goes nowhere.
pub route_rtp_dropped :
    (r : SfuRoom) (from : ℕ) (d : Bytes)
    → (length d < 12) ⊎ (member from r.peers ≡ false)
    → IsValid r
    → route_rtp r from d ≡ []
unfolding route_rtp
route_rtp_dropped r from d h v = ground (arith, v.same_peers from)

-- In a valid room an RTCP packet of at least four bytes goes unchanged to every peer but the sender,
-- once each, and to nobody else, whether or not the sender is in the room.
pub route_rtcp-Reaches :
    (r : SfuRoom) (from : ℕ) (d : Bytes)
    → IsValid r
    → 4 ≤ length d
    → Reaches r from d (route_rtcp r from d)
route_rtcp-Reaches r from d v h =
    subst (Reaches r from d) (sym (broadcast r from d h)) (others-Reaches r from d v)

-- The calls that change a room.
pub data Call : Type 0 where
  add : ℕ → Call
  remove : ℕ → Call

abbrev pub run : List Call → SfuRoom → SfuRoom
run [] r = r
run (add p ∷ calls) r = run calls (add_peer r p)
run (remove p ∷ calls) r = run calls (remove_peer r p)

next_ssrc-add :
    (r : SfuRoom) (p : ℕ) → r.next_ssrc + 1 < 2 ^ 32 → (add_peer r p).next_ssrc ≤ r.next_ssrc + 1
unfolding add_peer add_unless
next_ssrc-add r p h = ground arith

run-IsValid :
    (calls : List Call) (r : SfuRoom)
    → IsValid r
    → r.next_ssrc + length calls < 2 ^ 32
    → IsValid (run calls r)
run-IsValid [] r v h = v
run-IsValid (add p ∷ calls) r v h =
    run-IsValid calls (add_peer r p) (add_peer-IsValid r p v (omega arith))
      (omega (arith, next_ssrc-add r p (omega arith)))
run-IsValid (remove p ∷ calls) r v h =
    run-IsValid calls (remove_peer r p) (remove_peer-IsValid r p v)
      (unfold remove_peer in omega arith)

-- After any sequence of fewer than 0xF0000000 calls of `add_peer` and `remove_peer` on a new room, the
-- list of peers and the map hold the same peers, each once, with an SSRC of its own.
pub room-IsValid :
    (id : Bytes) (calls : List Call) → length calls < 0xF0000000 → IsValid (run calls (new_room id))
room-IsValid id calls h =
    run-IsValid calls (new_room id) (new_room-IsValid id) (unfold new_room in omega arith)
