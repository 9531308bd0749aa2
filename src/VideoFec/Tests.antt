-- ===== src/VideoFec/Tests.antt =====
-- The theorems on forward error correction at concrete inputs, with a stand-in for RaptorQ whose
-- objects have one symbol.
use plank_kymux.Common.{
  ℕ, ◌+◌, ◌*◌, ◌/◌, ◌^◌, ◌<◌, ◌≡◌, refl, true, false, some, List, [], ◌∷◌, ◌++◌, map, arith, ok,
  length, get_or, Safe,
}
use plank_kymux.Wire.{Bytes, Reader, be16, be32, of_be16, of_be32}
use plank_kymux.Av.Packet.{AvPacket, MediaPacket}
use plank_kymux.Av.Media
use plank_kymux.Video.Sender.{Channel, VideoSender, wire}
use plank_kymux.Wire.{byte}
use plank_kymux.VideoFec.Sender.{Encoder, send_packets}
use plank_kymux.Wire.Ints.{of_be16_lem}
use plank_kymux.VideoFec.Sender.Delivery.{IsOti, IsId, IsInverse, msg_of, send_packets-parse}
use plank_kymux.Video.Receiver.{StreamMsg}
use plank_kymux.Fec.{
  Oti, PayloadId, Raptorq, max_video_payload, parse_datagram, validate_oti, validate_symbol,
}
use plank_kymux.Fec.Decoder
use plank_kymux.Fec.Decoder.{ObjectDecoder, decode}
use plank_kymux.Fec.Decoder.Invariant.{IsDecoder, new-IsDecoder, decode-IsDecoder}
use plank_kymux.Fec.Validation.{IsReal, IsValidOti, validate_oti-IsValidOti, parse_datagram_lem}
use plank_kymux.Fec.Media.{media_packet, read_stream_packet}
use plank_kymux.Fec.Media.Safety.{IsRecord, read_stream_packet_lem, media_packet-wire}
use plank_kymux.VideoFec.Groups
use plank_kymux.VideoFec.Groups.{PendingGroups, admit, objects}
use plank_kymux.VideoFec.Segments.{no_stats}
use plank_kymux.Video.Group.{ConfigPacket}
use plank_kymux.Video
use plank_kymux.VideoFec.Groups.Admission.{IsAdmitted, admit-IsAdmitted}
use plank_kymux.VideoFec.Group.{PendingGroup}
use plank_kymux.VideoFec.Choice.{next_packet}
use plank_kymux.VideoFec.Choice.View.{view, next_packet-view}
use plank_kymux.VideoFec.Receiver.{RecvMsg, DatagramMsg, Event, message, timeout, start, run, parse}
use plank_kymux.VideoFec.Receiver.Safety.{SoundAfter, run-IsSound}

-- The layout of RFC 6330.
abbrev oti_of : Bytes → Oti
oti_of raw = record {
  transfer_length =
      get_or raw 0 0 * 2 ^ 32
      + of_be32 (get_or raw 1 0) (get_or raw 2 0) (get_or raw 3 0) (get_or raw 4 0);
  symbol_size = of_be16 (get_or raw 6 0) (get_or raw 7 0);
  source_blocks = get_or raw 8 0;
  sub_blocks = of_be16 (get_or raw 9 0) (get_or raw 10 0);
  symbol_alignment = get_or raw 11 0;
}

abbrev id_of : Bytes → PayloadId
id_of raw = record {
  source_block_number = get_or raw 0 0;
  encoding_symbol_id = of_be32 0 (get_or raw 1 0) (get_or raw 2 0) (get_or raw 3 0);
}

-- Its decoders count the symbols.
abbrev toy : Raptorq ℕ
toy = record {
  deserialize_oti = oti_of;
  deserialize_id = id_of;
  partition = λ n b. record { large = n; small = n; large_blocks = b };
  new_decoder = λ oti. 0;
  decode = λ d id bytes. (some bytes, d + 1);
}

abbrev frame : MediaPacket
frame = record {
  header = record { is_config = false; is_key = true; pts = 5; size = 2 };
  payload = 7 ∷ 8 ∷ [];
}

abbrev config : MediaPacket
config = record {
  header = record { is_config = true; is_key = false; pts = 0; size = 1 };
  payload = 9 ∷ [];
}

abbrev frame_bytes : Bytes
frame_bytes = 160 ∷ 0 ∷ 0 ∷ 0 ∷ 0 ∷ 0 ∷ 0 ∷ 5 ∷ 0 ∷ 0 ∷ 0 ∷ 2 ∷ 7 ∷ 8 ∷ []

wire-frame : wire frame ≡ ok frame_bytes
unfolding wire Media.serialize Media.pts_and_flags
wire-frame = refl

abbrev frame_oti : Oti
frame_oti = record {
  transfer_length = 14;
  symbol_size = 14;
  source_blocks = 1;
  sub_blocks = 1;
  symbol_alignment = 1;
}

-- Kypacket 1 of group 1.
abbrev frame_datagram : Bytes
frame_datagram =
    be16 2
    ++ be32 1
    ++ be32 1
    ++ be32 0
    ++ (14 ∷ 0 ∷ [])
    ++ be16 14
    ++ (1 ∷ [])
    ++ be16 1
    ++ (1 ∷ [])
    ++ be32 0
    ++ frame_bytes

abbrev frame_msg : DatagramMsg
frame_msg = record {
  bytes = frame_bytes;
  raw_kypacket_seq = 1;
  raw_group_seq = 1;
  oti = frame_oti;
  payload_id = record { source_block_number = 0; encoding_symbol_id = 0 };
}

parse-frame : parse toy frame_datagram ≡ ok frame_msg
unfolding parse parse_datagram validate_oti validate_symbol
parse-frame = refl

abbrev config_msg : StreamMsg
config_msg = record { packet = AvPacket.media config; raw_kypacket_seq = 0; raw_group_seq = 1 }

abbrev events : List (Event × ℕ)
events =
    (message (RecvMsg.datagram frame_msg), 1)
    ∷ (timeout, 2)
    ∷ (message (RecvMsg.stream config_msg), 3)
    ∷ []

run-IsSound_example : Safe IsReal (SoundAfter toy) (run toy start events)
run-IsSound_example = run-IsSound toy events

abbrev groups : List (PendingGroup ℕ)
groups =
    record {
      group_seq = 1;
      config_packet = ConfigPacket.sent;
      datagrams =
          record {
            oti = frame_oti;
            packet = AvPacket.media frame;
            kypacket_seq = 3;
            instant = 5;
            fec_stats = no_stats;
          }
          ∷ [];
      segments = [];
    }
    ∷ []

next_packet-view_example : next_packet groups 1 6 ≡ Video.Groups.next_packet (map view groups) 1 6
next_packet-view_example = next_packet-view groups 1 6

abbrev fresh : ObjectDecoder ℕ
fresh = record {
  oti = frame_oti;
  decoder = 0;
  received = [];
  per_block = 0 ∷ [];
  received_sources = 0;
}

fresh-IsDecoder : IsDecoder toy max_video_payload fresh
unfolding Decoder.new validate_oti
fresh-IsDecoder = (new-IsDecoder toy frame_oti max_video_payload).0

decode-IsDecoder_example :
    Safe IsReal
      (λ q. IsDecoder toy max_video_payload q.1 × (q.1.oti ≡ fresh.oti))
      (decode toy fresh frame_oti frame_msg.payload_id frame_bytes)
decode-IsDecoder_example =
    decode-IsDecoder toy max_video_payload fresh frame_oti frame_msg.payload_id frame_bytes
      fresh-IsDecoder

parse_datagram_lem_example :
    Safe IsReal
      (λ q.
        IsValidOti q.1 max_video_payload
        × (q.2.source_block_number < q.1.source_blocks)
        × (length q.0 ≡ q.1.symbol_size))
      (parse_datagram toy frame_datagram 26 max_video_payload)
parse_datagram_lem_example =
    parse_datagram_lem toy frame_datagram 26 max_video_payload (omega arith)

media_packet-wire_example : media_packet frame_bytes ≡ ok (AvPacket.media frame)
media_packet-wire_example =
    media_packet-wire frame frame_bytes (record { pts_lt = omega arith; size_lt = omega arith })
      refl refl wire-frame

abbrev config_reader : Reader
config_reader = record {
  input = 192 ∷ 0 ∷ 0 ∷ 0 ∷ 0 ∷ 0 ∷ 0 ∷ 0 ∷ 0 ∷ 0 ∷ 0 ∷ 1 ∷ 9 ∷ [];
  ends = true;
}

read_stream_packet_lem_example :
    Safe IsReal (IsRecord max_video_payload) (read_stream_packet max_video_payload config_reader).0
read_stream_packet_lem_example = read_stream_packet_lem max_video_payload config_reader

admit-IsAdmitted_example : Safe IsReal (IsAdmitted toy 1000 Groups.new) (admit Groups.new 1000 5)
unfolding objects
admit-IsAdmitted_example =
    admit-IsAdmitted toy Groups.new 1000 5 (record { sorted = tt; groups = tt; few = omega arith })
      (omega arith)

abbrev toy_encoder : Encoder
toy_encoder = record {
  config = λ bytes size. frame_oti;
  encoded_packets =
      λ bytes size n. (record { source_block_number = 0; encoding_symbol_id = 0 }, bytes) ∷ [];
  serialize_oti = λ oti.
      byte 4 oti.transfer_length
      ∷ (be32 oti.transfer_length
          ++ (0 ∷ be16 oti.symbol_size)
          ++ (oti.source_blocks ∷ be16 oti.sub_blocks)
          ++ (oti.symbol_alignment ∷ []));
  serialize_id =
      λ id. id.source_block_number ∷ byte 2 id.encoding_symbol_id ∷ be16 id.encoding_symbol_id;
  three_tenths = λ n. (3 * n + 9) / 10;
}

oti-back : (oti : Oti) → IsOti oti → oti_of (toy_encoder.serialize_oti oti) ≡ oti
oti-back oti w =
    let total = oti.transfer_length in
    let a : byte 4 total * 2 ^ 32
          + of_be32 (byte 3 total) (byte 2 total) (byte 1 total) (byte 0 total)
        ≡ total =
      omega (arith, w.transfer_length_lt) in
    rw (a, of_be16_lem oti.symbol_size w.symbol_size_lt, of_be16_lem oti.sub_blocks w.sub_blocks_lt)

id-back : (id : PayloadId) → IsId id → id_of (toy_encoder.serialize_id id) ≡ id
id-back id w =
    let n = id.encoding_symbol_id in
    let a : of_be32 0 (byte 2 n) (byte 1 n) (byte 0 n) ≡ n =
      omega (arith, w.encoding_symbol_id_lt) in
    rw a

toy-IsInverse : IsInverse toy toy_encoder
toy-IsInverse = record {
  oti_back = oti-back;
  id_back = id-back;
  oti_length = λ oti. refl;
  id_length = λ id. refl;
  reserved = λ oti. refl;
}

abbrev channel : Channel
channel = record {
  endpoint_id = 2;
  max_datagram_size = some 1000;
  takes_datagram = λ d. true;
  takes_write = λ d. true;
}

abbrev sender : VideoSender
sender = record { kypacket_seq = 1; group_seq = 1 }

abbrev symbols : List (PayloadId × Bytes)
symbols = (frame_msg.payload_id, frame_bytes) ∷ []

send_packets-parse_example :
    ((send_packets toy_encoder channel sender frame_oti symbols).0 ≡ ok tt)
    × (map (parse toy) (send_packets toy_encoder channel sender frame_oti symbols).1
        ≡ map (λ p. ok (msg_of sender frame_oti p)) symbols)
unfolding validate_oti
send_packets-parse_example =
    send_packets-parse toy toy_encoder toy-IsInverse channel sender frame_oti symbols (λ d. refl)
      (record { kypacket_seq_lt = omega arith; group_seq_lt = omega arith })
      (record {
        transfer_length_lt = omega arith;
        symbol_size_lt = omega arith;
        source_blocks_lt = omega arith;
        sub_blocks_lt = omega arith;
        symbol_alignment_lt = omega arith;
      })
      (validate_oti-IsValidOti frame_oti max_video_payload)
      (
        (
          record { source_block_number_lt = omega arith; encoding_symbol_id_lt = omega arith },
          omega arith,
          refl,
        ),
        tt,
      )
