-- ===== src/Rtcp/Nack.antt =====
-- `RtcpNack`: lost sequence numbers as pairs of a first number and a mask of the sixteen behind it.
mod Sorting
mod Packet
mod Masks
mod Covering
pub mod RoundTrip
unfoldable pub use Sorting.{insert_sorted, sort, unique}
pub use Sorting.{member, Above, StrictlySorted, unique-sort}
unfoldable pub use Packet.{
  serialize, parse, nack_pairs, pack_pairs, collect_blp, skip_covered, pair_bytes,
}
pub use Packet.{RtcpNack, NackPair, ordered, bit_set}
