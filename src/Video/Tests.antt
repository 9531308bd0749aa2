-- ===== src/Video/Tests.antt =====
-- The video protocol at concrete inputs: a config packet of group 1 and a media packet behind it.
use plank_kymux.Common.{
  ℕ, zero, suc, ◌-◌, ◌<◌, ◌≡◌, refl, Bool, true, false, none, some, List, [], ◌∷◌, arith, ok, ◌>>=◌,
  length,
}
use plank_kymux.Wire.{Bytes}
use plank_kymux.Av.Packet.{AvPacket, MediaPacket}
use plank_kymux.Av.Media
use plank_kymux.Av.Headers.{IsMediaHeader}
use plank_kymux.Sequencer
use plank_kymux.Sequencer.{w32, range, seq}
use plank_kymux.Video.Schedule.{Schedule, IsSchedule, IsMediaAt}
use plank_kymux.Video.Search.{search}
use plank_kymux.Video.Segments
use plank_kymux.Video.Segments.{set_segment, put_segments, merge_segments, assemble}
use plank_kymux.Video.Segments.Reassembly.{deliver, contains, reassembly}
use plank_kymux.Video.Group
use plank_kymux.Video.Group.{
  consume, prepare_datagram_segments, insert_datagram_packet, drop_expired_segments,
  update_segments, insert_segment, insert_datagram,
}
use plank_kymux.Video.Groups.{
  prepare_pending_group, update_at, set_config, insert_stream_packet, insert_group_datagram,
  min_datagrams, min_instant, next_packet_from, next_packet, take_from_group, take_from,
  take_next_packet,
}
use plank_kymux.Video.Sender.{Channel, VideoSender, send, wire}
use plank_kymux.Video.Sender
use plank_kymux.Video.Sender.Pieces.{pieces, concat, concat-pieces}
use plank_kymux.Video.Sender.Delivery.{parse_all, receive, pick, send-reassembly}
use plank_kymux.Video.Receiver.{
  RecvMsg, Receiver, stream, datagram, start, poll, accept_stream, accept_datagram,
  accept_stream_msg, on_msg,
}
use plank_kymux.Video.Receiver.Steps.{ReceiverInv, IsHonest, config, piece}
use plank_kymux.Video.Receiver.Order.{
  Reaches, Delivered, Reaches-Delivered, on_msg-ne-panic, init, message,
}

abbrev media : Bool → MediaPacket
media is_config = record {
  header = record { is_config = is_config; is_key = false; pts = 5; size = 2 };
  payload = 7 ∷ 8 ∷ [];
}

abbrev bytes : Bytes
bytes = 128 ∷ 0 ∷ 0 ∷ 0 ∷ 0 ∷ 0 ∷ 0 ∷ 5 ∷ 0 ∷ 0 ∷ 0 ∷ 2 ∷ 7 ∷ 8 ∷ []

media_wire : wire (media false) ≡ ok bytes
unfolding wire Media.serialize Media.pts_and_flags
media_wire = refl

media_header : IsMediaHeader (media false).header
media_header = record { pts_lt = omega arith; size_lt = omega arith }

abbrev is_first : ℕ → Bool
is_first zero = true
is_first (suc k) = false

abbrev two_packets : Schedule
two_packets = record {
  group_of = λ k. 1;
  config = is_first;
  packet_of = λ k. AvPacket.media (media (is_first k));
  pieces_of = λ k. bytes ∷ [];
}

two_packets_first : (m k : ℕ) → is_first k ≡ true → m < k → 1 < 1
two_packets_first m zero e h = absurd (omega arith)
two_packets_first m (suc k) e h = cc

two_packets_media : (k : ℕ) → is_first k ≡ false → IsMediaAt two_packets k
two_packets_media zero e = cc
two_packets_media (suc k) e = record {
  media = media false;
  bytes = bytes;
  same = refl;
  header = media_header;
  wired = media_wire;
  cut = refl;
}

two_packets-IsSchedule : IsSchedule two_packets
two_packets-IsSchedule = record {
  mono = λ m n h. omega arith;
  config_first = two_packets_first;
  media_at = two_packets_media;
  config_at = λ k c. (media (is_first k), refl);
}

abbrev config_msg : RecvMsg
config_msg =
    stream (record { packet = two_packets.packet_of 0; raw_kypacket_seq = 0; raw_group_seq = 1 })

abbrev piece_msg : RecvMsg
piece_msg = datagram (record {
  bytes = bytes;
  raw_kypacket_seq = 1;
  raw_group_seq = 1;
  datagram_number = 0;
  end = true;
})

-- The receiver once `k` packets of group 1 have come and gone.
abbrev after : ℕ → Receiver
after k = record {
  group_sequencer = record { newest_seq = 1 };
  kypacket_sequencer = record { newest_seq = k - 1 };
  pending_groups =
      record { group_seq = 1; config_packet = Group.sent; segments = []; datagrams = [] } ∷ [];
  next_kypacket_seq = k;
  deadline = none;
  dropped_packets = none;
}

piece_1-IsHonest : IsHonest two_packets (after 1) 2 piece_msg 2
piece_1-IsHonest =
    piece 1 0 true bytes (record { not_config = refl; piece = refl; last = refl })
      (omega arith, omega arith) (omega arith, omega arith)

config_0-IsHonest : IsHonest two_packets start 0 config_msg 2
unfolding start Sequencer.new
config_0-IsHonest =
    config 0 refl (omega arith) (omega arith, omega arith) (omega arith, omega arith)

config_0_run : on_msg start config_msg 100 ≡ ok (after 1, two_packets.packet_of 0 ∷ [])
unfolding on_msg accept_stream_msg accept_stream poll start Sequencer.new seq insert_stream_packet
    prepare_pending_group update_at set_config search take_next_packet next_packet next_packet_from
    take_from take_from_group consume Group.new min_instant min_datagrams
config_0_run = refl

piece_1_run : on_msg (after 1) piece_msg 200 ≡ ok (after 2, two_packets.packet_of 1 ∷ [])
unfolding on_msg accept_datagram poll Sequencer.new seq insert_group_datagram prepare_pending_group
    update_at insert_datagram update_segments insert_segment prepare_datagram_segments
    insert_datagram_packet drop_expired_segments search take_next_packet next_packet
    next_packet_from take_from take_from_group Group.new Segments.new set_segment merge_segments
    put_segments assemble min_instant min_datagrams Media.deserialize
piece_1_run = refl

config_done : Reaches two_packets 2 (two_packets.packet_of 0 ∷ []) (after 1)
config_done = message 0 2 100 [] _ start (after 1) config_msg init config_0-IsHonest config_0_run

piece_done :
    Reaches two_packets 2 (two_packets.packet_of 1 ∷ two_packets.packet_of 0 ∷ []) (after 2)
piece_done =
    message 2 2 200 _ _ (after 1) (after 2) piece_msg config_done piece_1-IsHonest piece_1_run

Reaches-Delivered_example :
    ReceiverInv two_packets 2 (after 2)
    × Delivered two_packets (after 2) (two_packets.packet_of 1 ∷ two_packets.packet_of 0 ∷ [])
Reaches-Delivered_example =
    Reaches-Delivered two_packets two_packets-IsSchedule 2
      (two_packets.packet_of 1 ∷ two_packets.packet_of 0 ∷ []) (after 2) piece_done

on_msg-ne-panic_example :
    (next : Receiver × List AvPacket) × (on_msg (after 1) piece_msg 200 ≡ ok next)
on_msg-ne-panic_example =
    on_msg-ne-panic two_packets two_packets-IsSchedule 2 2 200 (two_packets.packet_of 0 ∷ [])
      (after 1) piece_msg config_done piece_1-IsHonest

-- Datagrams of up to five bytes of a packet, so that it takes three of them.
abbrev channel : Channel
channel = record {
  endpoint_id = 4;
  max_datagram_size = some 19;
  takes_datagram = λ d. true;
  takes_write = λ d. true;
}

abbrev sender : VideoSender
sender = record { kypacket_seq = 6; group_seq = 1 }

three_sent : length (send channel sender (AvPacket.media (media false))).datagrams ≡ 3
unfolding send Sender.send_media Sender.send_sized Sender.send_bytes Sender.send_loop
    Sender.datagram_of wire Media.serialize Media.pts_and_flags
three_sent = refl

abbrev arrivals : List ℕ
arrivals = 2 ∷ 0 ∷ 2 ∷ 1 ∷ []

three_arrive : (j : ℕ) → j < 3 → contains arrivals j ≡ true
three_arrive zero h = refl
three_arrive (suc zero) h = refl
three_arrive (suc (suc zero)) h = refl
three_arrive (suc (suc (suc j))) h = absurd (omega arith)

send-reassembly_example :
    (parse_all (send channel sender (AvPacket.media (media false))).datagrams >>= λ ms.
    receive (pick arrivals ms) (Segments.new 6) >>= λ d. assemble d 300)
    ≡ ok (record { packet = AvPacket.media (media false); kypacket_seq = 6; instant = 300 })
send-reassembly_example =
    send-reassembly channel sender (media false) 5 bytes arrivals 6 300
      (record { max_size = refl; size_pos = omega arith; size_lt = omega arith; takes = λ d. refl })
      (record { kypacket_lt = omega arith; group_lt = omega arith }) refl media_header media_wire
      (omega arith) (λ j h. three_arrive j (rw three_sent at h))

abbrev pieces_5 : List Bytes
pieces_5 = (128 ∷ 0 ∷ 0 ∷ 0 ∷ 0 ∷ []) ∷ (0 ∷ 0 ∷ 5 ∷ 0 ∷ 0 ∷ []) ∷ (0 ∷ 2 ∷ 7 ∷ 8 ∷ []) ∷ []

reassembly_example :
    (deliver pieces_5 arrivals (Segments.new 6) >>= λ s. assemble s 300)
    ≡ ok (record { packet = AvPacket.media (media false); kypacket_seq = 6; instant = 300 })
reassembly_example =
    reassembly pieces_5 (media false) bytes arrivals 6 300 media_header media_wire refl three_arrive

concat-pieces_example : concat (pieces 5 14 bytes) ≡ bytes
concat-pieces_example = concat-pieces 5 14 bytes (omega arith) (omega arith)
