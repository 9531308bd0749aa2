-- ===== src/Video/Groups.antt =====
-- `PendingGroups` of video_unreliable.rs: the groups that are still to be sent, by group number.
pub mod Choice
pub mod Invariant
use plank_kymux.Common.{
  ℕ, suc, ◌+◌, min, Bool, true, false, not, Option, none, some, List, [], ◌∷◌, leb, ◌==◌,
  if◌then◌else◌, Result, ok, panic, ◌>>=◌, ◌>>◌, require, get_elem?, set, drop, insert_at,
}
use plank_kymux.Wire.{Bytes, IoError}
use plank_kymux.Av.Packet.{AvPacket}
use plank_kymux.Video.Search.{found, absent, search}
use plank_kymux.Video.Segments.{DatagramPacket}
use plank_kymux.Video.Group
use plank_kymux.Video.Group.{
  ConfigPacket, PendingGroup, StreamPacket, is_ready, is_none, consume, insert_datagram,
  drop_expired_segments,
}

abbrev pub group_seq : PendingGroup → ℕ
group_seq g = g.group_seq

unfoldable pub prepare_pending_group : List PendingGroup → ℕ → ℕ × List PendingGroup
prepare_pending_group gs n = elim (search group_seq n gs) [
  | found i ↦ (i, gs)
  | absent i ↦ (i, insert_at i (Group.new n) gs)
]

-- The body of the two insertions: `&mut self.pending_groups[index]`, where out of range is a panic.
unfoldable pub update_at :
    (PendingGroup → Result IoError PendingGroup)
    → ℕ × List PendingGroup
    → Result IoError (List PendingGroup)
update_at f (index, gs) = elim (get_elem? gs index) [
  | none ↦ panic
  | some g ↦ f g >>= λ g'. ok (set gs index g')
]

-- `panic` is the assertion that the group has no config packet yet.
unfoldable pub set_config : StreamPacket → PendingGroup → Result IoError PendingGroup
set_config p g = do
  require (is_none g.config_packet)
  ok (record g { config_packet = ConfigPacket.ready p })

unfoldable pub insert_stream_packet :
    List PendingGroup → ℕ → ℕ → AvPacket → Result IoError (List PendingGroup)
insert_stream_packet gs group k p =
    update_at (set_config (record { packet = p; kypacket_seq = k }))
      (prepare_pending_group gs group)

unfoldable pub insert_group_datagram :
    List PendingGroup → ℕ → ℕ → ℕ → Bool → Bytes → ℕ → Result IoError (List PendingGroup)
insert_group_datagram gs group k number end bytes now =
    update_at (λ g. insert_datagram g k number end bytes now) (prepare_pending_group gs group)

-- `Forwarder::MAX_BUFFERING`; times are in nanoseconds.
abbrev pub max_buffering : ℕ
max_buffering = 50_000_000

pub data NextPacket : Type 0 where
  nothing : NextPacket
  ready : ℕ → Bool → NextPacket
  deadline : ℕ → NextPacket

pub data Action : Type 0 where
  packet : ℕ → AvPacket → Action
  deadline : ℕ → Action
  nothing : Action

abbrev pub min_option : Option ℕ → Option ℕ → Option ℕ
min_option none b = b
min_option (some a) none = some a
min_option (some a) (some b) = some (min a b)

unfoldable pub min_datagrams : List DatagramPacket → Option ℕ
min_datagrams [] = none
min_datagrams (d ∷ ds) = min_option (some d.instant) (min_datagrams ds)

unfoldable pub min_instant : List PendingGroup → Option ℕ
min_instant [] = none
min_instant (g ∷ gs) = min_option (min_datagrams g.datagrams) (min_instant gs)

-- `ConfigPacket::Ready(packet)` with `packet.kypacket_seq == next_kypacket_seq`.
abbrev pub config_is_next : ConfigPacket → ℕ → Bool
config_is_next (ConfigPacket.ready p) next = p.kypacket_seq == next
config_is_next _ next = false

module _ (groups : List PendingGroup) (next now : ℕ) where
  abbrev pub cached_or : Option (Option ℕ) → Option ℕ
  cached_or (some c) = c
  cached_or none = min_instant groups

  -- What is done with a group whose first datagram is not the next one, by the oldest instant;
  -- `rest` stands for the groups behind it.
  abbrev pub by_deadline : ℕ → Bool → Option ℕ → NextPacket → NextPacket
  by_deadline i config none rest = rest
  by_deadline i config (some t) rest =
      if leb (t + max_buffering) now then ready i config else deadline (t + max_buffering)

  -- The part of the loop's body that looks at the datagrams of a group whose config packet is there.
  abbrev pub by_datagrams :
      ℕ → Bool → Option ℕ → List DatagramPacket → NextPacket → NextPacket → NextPacket
  by_datagrams i config m [] rest rest_cached = rest
  by_datagrams i config m (d ∷ ds) rest rest_cached =
      if d.kypacket_seq == next then ready i config else by_deadline i config m rest_cached

  -- The loop of `next_packet`, from the group with index `i` on.
  unfoldable pub next_packet_from : ℕ → Option (Option ℕ) → List PendingGroup → NextPacket
  next_packet_from i cached [] = nothing
  next_packet_from i cached (g ∷ gs) =
      let rest = next_packet_from (suc i) cached gs in
      let m = cached_or cached in
      let rest_cached = next_packet_from (suc i) (some m) gs in
      if is_none g.config_packet
      then rest
      else if config_is_next g.config_packet next
      then ready i true
      else by_datagrams i (is_ready g.config_packet) m g.datagrams rest rest_cached

  unfoldable pub next_packet : NextPacket
  next_packet = next_packet_from 0 none groups

abbrev config_action : StreamPacket → Action
config_action p = packet p.kypacket_seq p.packet

-- The end of `take_next_packet`, on the group that comes first once those before it are dropped.
unfoldable pub take_from_group : Bool → PendingGroup → Result IoError (Action × PendingGroup)
take_from_group true g = do
  require (not (is_none g.config_packet))
  (p, c) ← consume g.config_packet
  ok (config_action p, record g { config_packet = c })
take_from_group false g = do
  require (not (is_none g.config_packet))
  elim g.datagrams [
    | [] ↦ panic
    | d ∷ ds ↦ ok (
      packet d.kypacket_seq d.packet,
      drop_expired_segments (record g { datagrams = ds }) d.kypacket_seq,
    )
  ]

unfoldable pub take_from : Bool → List PendingGroup → Result IoError (Action × List PendingGroup)
take_from config [] = panic
take_from config (g ∷ gs) = take_from_group config g >>= λ r. ok (r.0, r.1 ∷ gs)

abbrev pub take_ref : NextPacket → List PendingGroup → Result IoError (Action × List PendingGroup)
take_ref nothing gs = ok (Action.nothing, gs)
take_ref (deadline t) gs = ok (Action.deadline t, gs)
take_ref (ready index config) gs = take_from config (drop index gs)

unfoldable pub take_next_packet :
    List PendingGroup → ℕ → ℕ → Result IoError (Action × List PendingGroup)
take_next_packet gs next now = take_ref (next_packet gs next now) gs
