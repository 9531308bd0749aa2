-- ===== src/VideoFec/Choice/View.antt =====
-- `next_packet` of video_unreliable_fec.rs beside that of video_unreliable.rs.
use plank_kymux.Common.{ℕ, suc, ◌≡◌, refl, ap, Bool, Option, none, some, List, [], ◌∷◌, map}
use plank_kymux.Video.Group
use plank_kymux.Video.Group.{is_ready, is_none}
use plank_kymux.Video.Groups
use plank_kymux.Video.Groups.{NextPacket, ready, config_is_next}
use plank_kymux.Video.Segments
use plank_kymux.VideoFec.Segments.{DatagramPacket}
use plank_kymux.VideoFec.Group.{PendingGroup}
use plank_kymux.VideoFec.Choice.{
  min_datagrams, min_instant, cached_or, by_datagrams, next_packet_from, next_packet,
}

abbrev pub view_datagram : DatagramPacket → Segments.DatagramPacket
view_datagram d = record { packet = d.packet; kypacket_seq = d.kypacket_seq; instant = d.instant }

-- A group as video_unreliable.rs keeps it, without what is not complete.
abbrev pub view : {D : Type 0} → PendingGroup D → Group.PendingGroup
view g = record {
  group_seq = g.group_seq;
  config_packet = g.config_packet;
  datagrams = map view_datagram g.datagrams;
  segments = [];
}

min_datagrams-view :
    (ds : List DatagramPacket) → min_datagrams ds ≡ Groups.min_datagrams (map view_datagram ds)
unfolding min_datagrams Groups.min_datagrams
min_datagrams-view [] = refl
min_datagrams-view (d ∷ ds) = ap (Groups.min_option (some d.instant)) (min_datagrams-view ds)

module _ {D : Type 0} where
  min_instant-view :
      (gs : List (PendingGroup D)) → min_instant gs ≡ Groups.min_instant (map view gs)
  unfolding min_instant Groups.min_instant
  min_instant-view [] = refl
  min_instant-view (g ∷ gs) = rw (min_datagrams-view g.datagrams, min_instant-view gs)

  module _ (groups : List (PendingGroup D)) (next now : ℕ) where
    by_datagrams-view :
        (i : ℕ) (config : Bool) (m : Option ℕ) (ds : List DatagramPacket)
        (rest rest_cached : NextPacket)
        → by_datagrams groups next now i config m ds rest rest_cached
          ≡ Groups.by_datagrams
              (map view groups)
              next
              now
              i
              config
              m
              (map view_datagram ds)
              rest
              rest_cached
    by_datagrams-view i config m [] rest rest_cached = refl
    by_datagrams-view i config none (d ∷ ds) rest rest_cached = refl
    by_datagrams-view i config (some t) (d ∷ ds) rest rest_cached = refl

    cached_view :
        (cached : Option (Option ℕ))
        → cached_or groups next now cached ≡ Groups.cached_or (map view groups) next now cached
    cached_view none = min_instant-view groups
    cached_view (some c) = refl

    next_packet_from-view :
        (i : ℕ) (cached : Option (Option ℕ)) (gs : List (PendingGroup D))
        → next_packet_from groups next now i cached gs
          ≡ Groups.next_packet_from (map view groups) next now i cached (map view gs)
    unfolding next_packet_from Groups.next_packet_from
    next_packet_from-view i cached [] = refl
    next_packet_from-view i cached (g ∷ gs) = rw (
      next_packet_from-view (suc i) cached gs,
      next_packet_from-view (suc i) (some (cached_or groups next now cached)) gs,
      by_datagrams-view i (is_ready g.config_packet) (cached_or groups next now cached) g.datagrams,
      cached_view cached,
    )

    -- The choice is that of the driver without forward error correction.
    pub next_packet-view :
        next_packet groups next now ≡ Groups.next_packet (map view groups) next now
    unfolding next_packet Groups.next_packet
    next_packet-view = next_packet_from-view 0 none groups
