-- ===== src/Gop/Broadcast/Runs.antt =====
-- video_gopstream.rs: the runs of the receiver on the streams of several groups.
use plank_kymux.Common.{◌≡◌, refl, Option, none, ok}
use plank_kymux.Av.Packet.{AvPacket}
use plank_kymux.Gop.Receiver.{RecvMsg, new_stream, handle}
use plank_kymux.Gop.Broadcast.{
  Broadcast, IsBroadcast, World, given, step, Comes, Reaches, IsConfigured,
}
use plank_kymux.Gop.Broadcast.Synced.{IsSynced, Syncs, initial-IsSynced, ids_lem, stale_lem}
use plank_kymux.Gop.Broadcast.Packets.{fresh_lem}

module _ (b : Broadcast) (v : IsBroadcast b) where
  -- A message that may come is handled without a panic, and a frame goes to a client that has the
  -- codec packet and the config packet of the frame's group.
  step-Syncs : (w : World) (m : RecvMsg) → Comes b w m → IsSynced b w → Syncs b w m
  step-Syncs w _ Comes.opened s = opened_lem w s
    where
      opened_lem : (w : World) → IsSynced b w → Syncs b w new_stream
      opened_lem w s = ((w, none), unfold step handle in refl, s, tt)
  step-Syncs w _ (Comes.ids i) s = ids_lem b v w i s
  step-Syncs w _ (Comes.stale p id gop e lower) s = stale_lem b v w p id gop s e lower
  step-Syncs w _ (Comes.fresh p id e at) s = fresh_lem b v w p id w.arrived s e refl at

  Reaches-IsSynced : (w : World) → Reaches b w → IsSynced b w
  Reaches-IsSynced w Reaches.begin = initial-IsSynced b v
  Reaches-IsSynced w (Reaches.onward w0 _ m given r c e) =
      let (q, done, s, good) = step-Syncs w0 m c (Reaches-IsSynced w0 r) in
      let same : q.0 ≡ w = cc (done, e) in rw (← same) s

  -- However the streams of the groups race each other, no message panics; a codec or config packet is
  -- given only if it is newer than those before; and each frame that is given came with the id of the
  -- group that is read, is the next packet of that group, and comes to a client that has the codec
  -- packet and the config packet of that group.
  pub Reaches-IsConfigured :
      (w : World) (m : RecvMsg)
      → Reaches b w
      → Comes b w m
      → (q : World × Option AvPacket) × (step w m ≡ ok q) × IsConfigured b w m q.0 q.1
  Reaches-IsConfigured w m r c =
      let (q, done, s, good) = step-Syncs w m c (Reaches-IsSynced w r) in (q, done, good)
