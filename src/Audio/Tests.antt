-- ===== src/Audio/Tests.antt =====
-- The theorems on audio at concrete inputs.
use plank_kymux.Common.{ℕ, ◌+◌, ◌*◌, ◌≡◌, refl, true, false, some, List, [], ◌∷◌, map, arith, ok}
use plank_kymux.Av.Packet.{AvPacket, MediaPacket}
use plank_kymux.Video.Group
use plank_kymux.Video.Group.{ConfigPacket}
use plank_kymux.Video.Groups
use plank_kymux.Audio.Group.{PendingGroup, insert_datagram, take_next_packet}
use plank_kymux.Audio.Group.Refinement.{
  as_video, mapped, mapped_taken, later, insert_datagram-as_video, take_next_packet-as_video,
}
use plank_kymux.Audio.Receiver.{Receiver, start, poll, parse_datagram}
use plank_kymux.Wire.{Bytes}
use plank_kymux.Video.Sender.{Channel}
use plank_kymux.Video.Sender.Pieces.{pieces, concat}
use plank_kymux.Audio.Sender.{AudioSender, send_loop}
use plank_kymux.Audio.Sender.Delivery.{msgs_of, send_loop-parse}
use plank_kymux.Audio.Receiver.Polling.{poll-total}
use plank_kymux.Audio.Receiver.Samples.{duration, give_all, duration-give_all}

abbrev sound : MediaPacket
sound = record {
  header = record { is_config = false; is_key = false; pts = 5; size = 2 };
  payload = 7 ∷ 8 ∷ [];
}

-- Packet 4 is there, and packet 3 is not.
abbrev group : PendingGroup
group = record {
  config_packet = ConfigPacket.sent;
  datagrams = record { packet = AvPacket.media sound; kypacket_seq = 4; instant = 100 } ∷ [];
  segments = [];
}

insert_datagram-as_video_example :
    mapped (insert_datagram group 5 0 true (160 ∷ 0 ∷ []) 200)
    ≡ Group.insert_datagram (as_video group) 5 0 true (160 ∷ 0 ∷ []) 200
insert_datagram-as_video_example = insert_datagram-as_video group 5 0 true (160 ∷ 0 ∷ []) 200

take_next_packet-as_video_example :
    mapped_taken (take_next_packet group 3 10_000_200)
    ≡ Groups.take_next_packet (as_video group ∷ []) 3 (later 10_000_200)
take_next_packet-as_video_example = take_next_packet-as_video group 3 10_000_200

abbrev playing : Receiver
playing = record start { next_kypacket_seq = 1; frame_size = some 960 }

abbrev played : List (ℕ × AvPacket)
played = (1, AvPacket.media sound) ∷ (4, AvPacket.media sound) ∷ []

duration-give_all_example :
    (let q = give_all playing played 960 in
      duration 960 q.1 + 1 * 960 ≡ q.0.next_kypacket_seq * 960)
duration-give_all_example =
    duration-give_all playing played 960
      (omega arith, omega arith, tt, (omega arith, omega arith, tt, tt))

abbrev waiting : Receiver
waiting = record playing { pending_group = group; next_kypacket_seq = 3 }

poll-total_example : (out : Receiver × List AvPacket) × (poll waiting 10_000_200 ≡ ok out)
poll-total_example = poll-total waiting 960 10_000_200 refl

abbrev channel : Channel
channel = record {
  endpoint_id = 2;
  max_datagram_size = some 15;
  takes_datagram = λ d. true;
  takes_write = λ b. true;
}

abbrev sender : AudioSender
sender = record { kypacket_seq = 3 }

-- Cut into 5, 5 and 4 bytes.
abbrev sound_bytes : Bytes
sound_bytes = 0 ∷ 0 ∷ 0 ∷ 0 ∷ 0 ∷ 0 ∷ 0 ∷ 5 ∷ 0 ∷ 0 ∷ 0 ∷ 2 ∷ 7 ∷ 8 ∷ []

send_loop-parse_example :
    ((send_loop channel sender 5 14 sound_bytes 0).0 ≡ ok tt)
    × (map parse_datagram (send_loop channel sender 5 14 sound_bytes 0).1
        ≡ map ok (msgs_of sender 0 (pieces 5 14 sound_bytes)))
    × (concat (pieces 5 14 sound_bytes) ≡ sound_bytes)
send_loop-parse_example =
    send_loop-parse channel sender 5 14 sound_bytes 0 (λ d. refl) (omega arith) (omega arith)
      (omega arith) (omega arith) (omega arith)
