-- ===== src/VideoFec/Choice.antt =====
-- `next_packet` and `take_next_packet` of `PendingGroups` in video_unreliable_fec.rs.
pub mod View
pub mod Taking
use plank_kymux.Common.{
  ℕ, suc, ◌+◌, Bool, true, false, not, Option, none, some, List, [], ◌∷◌, leb, ◌==◌, if◌then◌else◌,
  Result, ok, panic, ◌>>=◌, ◌>>◌, require, take, drop,
}
use plank_kymux.Av.Packet.{AvPacket}
use plank_kymux.Fec.{FecError}
use plank_kymux.Video.Group.{ConfigPacket, StreamPacket, is_ready, is_none}
use plank_kymux.Video.Groups.{NextPacket, ready, min_option, config_is_next, max_buffering}
use plank_kymux.VideoFec.Segments.{FecStats, DatagramPacket, no_stats, accumulate}
use plank_kymux.VideoFec.Group.{PendingGroup, drop_expired_segments, discarded_fec_stats}
use plank_kymux.VideoFec.Groups.{PendingGroups}

pub data Action : Type 0 where
  packet : ℕ → AvPacket → FecStats → Action
  deadline : ℕ → Action
  nothing : Action

unfoldable pub min_datagrams : List DatagramPacket → Option ℕ
min_datagrams [] = none
min_datagrams (d ∷ ds) = min_option (some d.instant) (min_datagrams ds)

-- `consume`: the packet, and the state that is left.
unfoldable pub consume : ConfigPacket → Result FecError (StreamPacket × ConfigPacket)
consume (ConfigPacket.ready p) = ok (p, ConfigPacket.sent)
consume _ = panic

module _ {D : Type 0} where
  unfoldable pub min_instant : List (PendingGroup D) → Option ℕ
  min_instant [] = none
  min_instant (g ∷ gs) = min_option (min_datagrams g.datagrams) (min_instant gs)

  module _ (groups : List (PendingGroup D)) (next now : ℕ) where
    abbrev pub cached_or : Option (Option ℕ) → Option ℕ
    cached_or (some c) = c
    cached_or none = min_instant groups

    -- What is done with a group whose first datagram is not the next one, by the oldest instant;
    -- `rest` stands for the groups behind it.
    abbrev pub by_deadline : ℕ → Bool → Option ℕ → NextPacket → NextPacket
    by_deadline i config none rest = rest
    by_deadline i config (some t) rest =
        if leb (t + max_buffering) now
        then ready i config
        else NextPacket.deadline (t + max_buffering)

    abbrev pub by_datagrams :
        ℕ → Bool → Option ℕ → List DatagramPacket → NextPacket → NextPacket → NextPacket
    by_datagrams i config m [] rest rest_cached = rest
    by_datagrams i config m (d ∷ ds) rest rest_cached =
        if d.kypacket_seq == next then ready i config else by_deadline i config m rest_cached

    -- The loop of `next_packet`, from the group with index `i` on.
    unfoldable pub next_packet_from : ℕ → Option (Option ℕ) → List (PendingGroup D) → NextPacket
    next_packet_from i cached [] = NextPacket.nothing
    next_packet_from i cached (g ∷ gs) =
        let rest = next_packet_from (suc i) cached gs in
        let m = cached_or cached in
        let rest_cached = next_packet_from (suc i) (some m) gs in
        if is_none g.config_packet
        then rest
        else if config_is_next g.config_packet next
        then ready i true
        else by_datagrams i (is_ready g.config_packet) m g.datagrams rest rest_cached

    unfoldable pub next_packet : NextPacket
    next_packet = next_packet_from 0 none groups

  abbrev pub groups_stats : List (PendingGroup D) → FecStats
  groups_stats [] = no_stats
  groups_stats (g ∷ gs) = accumulate (discarded_fec_stats g) (groups_stats gs)

  -- The end of `take_next_packet`, on the group that comes first once those before it are dropped.
  unfoldable pub take_from_group :
      Bool → FecStats → PendingGroup D → Result FecError (Action × PendingGroup D)
  take_from_group true stats g = do
    require (not (is_none g.config_packet))
    (p, c) ← consume g.config_packet
    ok (packet p.kypacket_seq p.packet stats, record g { config_packet = c })
  take_from_group false stats g = do
    require (not (is_none g.config_packet))
    elim g.datagrams [
      | [] ↦ panic
      | d ∷ ds ↦
          let (expired, g') = drop_expired_segments (record g { datagrams = ds }) d.kypacket_seq in
          ok
            (packet d.kypacket_seq d.packet (accumulate (accumulate stats expired) d.fec_stats), g')
    ]

  unfoldable pub take_from :
      Bool
      → FecStats
      → PendingGroups D
      → List (PendingGroup D)
      → Result FecError (Action × PendingGroups D)
  take_from config stats ps [] = panic
  take_from config stats ps (g ∷ gs) = take_from_group config stats g >>= λ r.
      ok (r.0, record ps { pending_groups = r.1 ∷ gs; retired_stats = no_stats })

  abbrev pub take_ref : NextPacket → PendingGroups D → Result FecError (Action × PendingGroups D)
  take_ref NextPacket.nothing ps = ok (Action.nothing, ps)
  take_ref (NextPacket.deadline t) ps = ok (Action.deadline t, ps)
  take_ref (ready index config) ps =
      take_from config (accumulate ps.retired_stats (groups_stats (take index ps.pending_groups)))
        ps (drop index ps.pending_groups)

  unfoldable pub take_next_packet :
      PendingGroups D → ℕ → ℕ → Result FecError (Action × PendingGroups D)
  take_next_packet ps next now = take_ref (next_packet ps.pending_groups next now) ps
