-- ===== src/Video/Segments.antt =====
-- `DatagramSegments` of video_unreliable.rs: the datagrams of one kypacket, until it is complete.
pub mod Slots
pub mod Partial
pub mod Reassembly
use plank_kymux.Common.{
  ℕ, ◌+◌, ◌-◌, Bool, true, false, not, ◌&&◌, Option, none, some, List, [], ◌∷◌, ◌++◌, leb, ◌==◌,
  if◌then◌else◌, Result, ok, panic, ◌>>=◌, ◌>>◌, require, length, get_or, set, take, drop,
  replicate,
}
use plank_kymux.Wire.{Bytes, IoError}
use plank_kymux.Av.Packet.{AvPacket, MediaPacket, serialized_size}
use plank_kymux.Av.Media

pub record DatagramSegments : Type 0 where
  pub kypacket_seq : ℕ
  pub total_segments : Option ℕ
  pub segments : List (Option Bytes)
  pub segments_count : ℕ
  pub total_segment_bytes : ℕ

-- A kypacket put together again, with the time of that.
pub record DatagramPacket : Type 0 where
  pub packet : AvPacket
  pub kypacket_seq : ℕ
  pub instant : ℕ

unfoldable pub new : ℕ → DatagramSegments
new k = record {
  kypacket_seq = k;
  total_segments = none;
  segments = [];
  segments_count = 0;
  total_segment_bytes = 0;
}

abbrev pub eq_some : Option ℕ → ℕ → Bool
eq_some none n = false
eq_some (some m) n = m == n

abbrev pub is_complete : DatagramSegments → Bool
is_complete s = eq_some s.total_segments s.segments_count

-- A `None` among the segments is the `expect` that fails.
unfoldable pub put_segments : List (Option Bytes) → Result IoError Bytes
put_segments [] = ok []
put_segments (none ∷ rest) = panic
put_segments (some s ∷ rest) = put_segments rest >>= λ bs. ok (s ++ bs)

-- With the `debug_assert_eq!`, as a debug build has it.
unfoldable pub merge_segments : List (Option Bytes) → ℕ → Result IoError Bytes
merge_segments segments total_segment_bytes = do
  bytes ← put_segments segments
  require (length bytes == total_segment_bytes)
  ok bytes

-- `resize(index + 1, None)`, if the index is out of range.
abbrev pub resized : ℕ → List (Option Bytes) → List (Option Bytes)
resized index xs =
    if leb (length xs) index then xs ++ replicate (index + 1 - length xs) none else xs

abbrev pub is_some {ℓ} : {A : Type ℓ} → Option A → Bool
is_some none = false
is_some (some a) = true

-- What the vector holds at an index: `none` where it holds `None`, and out of range.
abbrev pub slot : List (Option Bytes) → ℕ → Option Bytes
slot xs i = get_or xs i none

-- `panic` is the assertion that no end was seen before.
unfoldable pub set_segment : DatagramSegments → ℕ → Bytes → Bool → Result IoError DatagramSegments
set_segment s index segment end =
    let xs = resized index s.segments in
    if is_some (slot xs index) then ok (record s { segments = xs }) else (do
      require (not (end && is_some s.total_segments))
      ok (record s {
        total_segments = if end then some (index + 1) else s.total_segments;
        segments = set xs index (some segment);
        segments_count = s.segments_count + 1;
        total_segment_bytes = s.total_segment_bytes + length segment;
      }))

-- The slice `data[..SERIALIZED_SIZE]` wants that many bytes.
unfoldable pub assemble : DatagramSegments → ℕ → Result IoError DatagramPacket
assemble s now = do
  require (is_complete s)
  bytes ← merge_segments s.segments s.total_segment_bytes
  require (leb serialized_size (length bytes))
  header ← Media.deserialize (take serialized_size bytes)
  ok (record {
    packet = AvPacket.media (record { header = header; payload = drop serialized_size bytes });
    kypacket_seq = s.kypacket_seq;
    instant = now;
  })
