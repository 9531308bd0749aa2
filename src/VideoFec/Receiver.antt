-- ===== src/VideoFec/Receiver.antt =====
-- `VideoUnreliableFecProtocolRecvDriver` of video_unreliable_fec.rs: the datagrams, and `process`.
pub mod Safety
use plank_kymux.Common.{
  ℕ, zero, suc, ◌+◌, ◌-◌, Option, none, some, List, [], ◌∷◌, ◌++◌, ltb, leb, ◌==◌, if◌then◌else◌,
  Result, ok, err, ◌>>=◌, ◌>>◌,
}
use plank_kymux.Wire.{Bytes, of_be32}
use plank_kymux.Av.Packet.{AvPacket, at}
use plank_kymux.Sequencer
use plank_kymux.Sequencer.{w32, Sequencer, seq}
use plank_kymux.Fec
use plank_kymux.Fec.{Oti, PayloadId, Raptorq, FecError, max_video_payload, max_pending_objects}
use plank_kymux.Video.Receiver.{StreamMsg, or_default}
use plank_kymux.VideoFec.Segments.{FecStats}
use plank_kymux.VideoFec.Groups
use plank_kymux.VideoFec.Groups.{PendingGroups, insert_stream_packet, insert_group_datagram}
use plank_kymux.VideoFec.Choice.{Action, take_next_packet}

abbrev pub datagram_header_size : ℕ
datagram_header_size = 26

pub record DatagramMsg : Type 0 where
  pub bytes : Bytes
  pub raw_kypacket_seq : ℕ
  pub raw_group_seq : ℕ
  pub oti : Oti
  pub payload_id : PayloadId

pub data RecvMsg : Type 0 where
  stream : StreamMsg → RecvMsg
  datagram : DatagramMsg → RecvMsg

abbrev pub u32_at : Bytes → ℕ → ℕ
u32_at buf i = of_be32 (at buf i) (at buf (i + 1)) (at buf (i + 2)) (at buf (i + 3))

-- `protocol_stats`, as far as it is written here.
pub record Stats : Type 0 where
  pub source_symbols : Option ℕ
  pub source_symbols_missing : Option ℕ
  pub source_symbols_unrecovered : Option ℕ
  pub dropped_packets : Option ℕ

-- The variables of `process`.
pub record Receiver (D : Type 0) : Type 0 where
  pub group_sequencer : Sequencer
  pub kypacket_sequencer : Sequencer
  pub pending_groups : PendingGroups D
  pub next_kypacket_seq : ℕ
  pub deadline : Option ℕ
  pub stats : Stats

abbrev pub count_symbols : FecStats → Stats → Stats
count_symbols f s = if f.source_symbols == 0 then s else record s {
  source_symbols = some (or_default s.source_symbols + f.source_symbols);
  source_symbols_missing = some (or_default s.source_symbols_missing + f.missing_source_symbols);
  source_symbols_unrecovered =
      some (or_default s.source_symbols_unrecovered + f.unrecovered_source_symbols);
}

abbrev pub count_dropped : ℕ → ℕ → Stats → Stats
count_dropped next k s =
    if ltb next k
    then record s { dropped_packets = some (or_default s.dropped_packets + (k - next)) }
    else s

module _ {D : Type 0} where
  unfoldable pub start : Receiver D
  unfolding Sequencer.new
  start = record {
    group_sequencer = Sequencer.new;
    kypacket_sequencer = Sequencer.new;
    pending_groups = Groups.new;
    next_kypacket_seq = 0;
    deadline = none;
    stats = record {
      source_symbols = none;
      source_symbols_missing = none;
      source_symbols_unrecovered = none;
      dropped_packets = none;
    };
  }

  -- What is done with an action; `next` stands for the rounds that follow a packet.
  abbrev pub apply_action :
      (Receiver D → Result FecError (Receiver D × List AvPacket))
      → Receiver D
      → Action × PendingGroups D
      → Result FecError (Receiver D × List AvPacket)
  apply_action next r (Action.nothing, ps) =
      ok (record r { pending_groups = ps; deadline = none }, [])
  apply_action next r (Action.deadline t, ps) =
      ok (record r { pending_groups = ps; deadline = some t }, [])
  apply_action next r (Action.packet k p f, ps) =
      next (record r {
        pending_groups = ps;
        next_kypacket_seq = k + 1;
        stats = count_dropped r.next_kypacket_seq k (count_symbols f r.stats);
      })
      >>= λ q. ok (q.0, p ∷ q.1)

  -- The loop that follows the `select!`.
  unfoldable pub drain_loop : ℕ → Receiver D → ℕ → Result FecError (Receiver D × List AvPacket)
  drain_loop zero r now = err FecError.out_of_fuel
  drain_loop (suc fuel) r now =
      take_next_packet r.pending_groups r.next_kypacket_seq now
      >>= apply_action (λ r'. drain_loop fuel r' now) r

  -- One round for each pending object, and one more.
  unfoldable pub drain : Receiver D → ℕ → Result FecError (Receiver D × List AvPacket)
  drain = drain_loop (max_pending_objects + 1)

  -- The two calls of `seq`, with the sequencers they leave.
  abbrev pub counted : Receiver D → ℕ → ℕ → Receiver D
  counted r raw_k raw_g = record r {
    kypacket_sequencer = (seq w32 r.kypacket_sequencer raw_k).1;
    group_sequencer = (seq w32 r.group_sequencer raw_g).1;
  }

  unfoldable pub accept_stream :
      Receiver D → ℕ → ℕ → AvPacket → ℕ → Result FecError (Receiver D × List AvPacket)
  accept_stream r k group p now =
      let inserted = insert_stream_packet r.pending_groups group k p now >>= λ ps.
      drain (record r { pending_groups = ps }) now in
      if leb r.next_kypacket_seq k then inserted else drain r now

  unfoldable pub accept_stream_msg :
      Receiver D → StreamMsg → AvPacket → ℕ → Result FecError (Receiver D × List AvPacket)
  accept_stream_msg r m (AvPacket.codec p) now = ok (r, m.packet ∷ [])
  accept_stream_msg r m _ now =
      accept_stream (counted r m.raw_kypacket_seq m.raw_group_seq)
        (seq w32 r.kypacket_sequencer m.raw_kypacket_seq).0
        (seq w32 r.group_sequencer m.raw_group_seq).0 m.packet now

  -- One round of the loop of `process` that the deadline begins.
  unfoldable pub on_deadline : Receiver D → ℕ → Result FecError (Receiver D × List AvPacket)
  on_deadline = drain

  module _ (R : Raptorq D) where
    unfoldable pub accept_datagram :
        Receiver D → ℕ → ℕ → DatagramMsg → ℕ → Result FecError (Receiver D × List AvPacket)
    accept_datagram r k group m now =
        let inserted =
          insert_group_datagram R r.pending_groups group k m.oti m.payload_id m.bytes now >>= λ ps.
          drain (record r { pending_groups = ps }) now in
        if ltb k r.next_kypacket_seq then ok (r, []) else inserted

    -- One round that `rx.recv()` begins; `now` is what `Instant::now()` gives.
    unfoldable pub on_msg : Receiver D → RecvMsg → ℕ → Result FecError (Receiver D × List AvPacket)
    unfolding accept_stream_msg
    on_msg r (stream m) now = accept_stream_msg r m m.packet now
    on_msg r (datagram m) now =
        accept_datagram (counted r m.raw_kypacket_seq m.raw_group_seq)
          (seq w32 r.kypacket_sequencer m.raw_kypacket_seq).0
          (seq w32 r.group_sequencer m.raw_group_seq).0 m now

-- What the `select!` of `process` waits for.
pub data Event : Type 0 where
  message : RecvMsg → Event
  timeout : Event

module _ {D : Type 0} (R : Raptorq D) where
  abbrev pub on_event : Receiver D → Event → ℕ → Result FecError (Receiver D × List AvPacket)
  on_event r (message m) now = on_msg R r m now
  on_event r timeout now = on_deadline r now

  -- The loop of `process` over the events with their times, and all that it sends.
  unfoldable pub run : Receiver D → List (Event × ℕ) → Result FecError (Receiver D × List AvPacket)
  run r [] = ok (r, [])
  run r ((e, now) ∷ es) = on_event r e now >>= λ q. run q.0 es >>= λ q'. ok (q'.0, q.1 ++ q'.1)

  -- `DatagramMsg::parse`; the endpoint id is skipped.
  unfoldable pub parse : Bytes → Result FecError DatagramMsg
  parse buf = do
    (bytes, oti, id) ← Fec.parse_datagram R buf datagram_header_size max_video_payload
    ok (record {
      bytes = bytes;
      raw_kypacket_seq = u32_at buf 2;
      raw_group_seq = u32_at buf 6;
      oti = oti;
      payload_id = id;
    })
