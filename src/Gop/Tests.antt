-- ===== src/Gop/Tests.antt =====
-- The theorems on groups of pictures at concrete inputs.
use plank_kymux.Common.{◌+◌, ◌≡◌, refl, true, false, Option, none, some, [], ◌∷◌, ◌++◌, arith, ok}
use plank_kymux.Wire.{Reader}
use plank_kymux.Av.Packet.{AvPacket, CodecPacket, MediaPacket}
use plank_kymux.Gop.Receiver.{start, new_packet, stream_ids, handle, read_stream_ids, read_packets}
use plank_kymux.Gop.Broadcast.{
  Broadcast, IsBroadcast, World, initial, step, gop_of, Comes, Reaches, IsConfigured,
}
use plank_kymux.Gop.Broadcast.Runs.{Reaches-IsConfigured}
use plank_kymux.Gop.Sender.{Transport, GopSender, next_id, send}
use plank_kymux.Gop.Sender.Opening.{IsOpen, ready, written_to, gop_of_sender, send-read}

abbrev codec : CodecPacket
codec = record { header = record { codec = 3; rotation = 0; frame_size = 0 } }

abbrev config : MediaPacket
config = record {
  header = record { is_config = true; is_key = false; pts = 0; size = 1 };
  payload = 9 ∷ [];
}

abbrev frame : MediaPacket
frame = record {
  header = record { is_config = false; is_key = true; pts = 5; size = 2 };
  payload = 7 ∷ 8 ∷ [];
}

abbrev show : Broadcast
show = record {
  codec_gen = λ i. 1;
  config_gen = λ i. i + 1;
  codec_of = λ n. codec;
  config_of = λ n. config;
  frames = λ i. frame ∷ [];
}

show-IsBroadcast : IsBroadcast show
show-IsBroadcast = record {
  codec_mono = λ i j h. omega arith;
  config_mono = λ i j h. omega arith;
  codec_pos = λ i. omega arith;
  config_pos = λ i. omega arith;
  is_config = λ n. refl;
  is_frame = λ i. (refl, tt);
}

-- Group 1 is open.
abbrev opened_world : World
opened_world = record initial {
  receiver = record {
    gop = some (gop_of show 1);
    last_codec_gen = 0;
    last_config_gen = 0;
    reading = some 1;
  };
}

opened_Reaches : Reaches show opened_world
unfolding step handle start
opened_Reaches =
    Reaches.onward initial opened_world (stream_ids (gop_of show 1)) none Reaches.begin
      (Comes.ids 1) refl

first_Comes : Comes show opened_world (new_packet (AvPacket.codec codec) 1)
first_Comes = Comes.fresh (AvPacket.codec codec) 1 refl refl

Reaches-IsConfigured_example :
    (q : World × Option AvPacket) × (step opened_world (new_packet (AvPacket.codec codec) 1) ≡ ok q)
    × IsConfigured show opened_world (new_packet (AvPacket.codec codec) 1) q.0 q.1
Reaches-IsConfigured_example =
    Reaches-IsConfigured show show-IsBroadcast opened_world (new_packet (AvPacket.codec codec) 1)
      opened_Reaches first_Comes

abbrev open_transport : Transport
open_transport = record { opens = λ n. true; takes = λ n bytes. true }

abbrev sender : GopSender
sender = record {
  streams = 2;
  current_stream = some 1;
  gop_id = 2;
  codec_gen = 1;
  codec_packet = none;
  config_gen = 1;
  config_packet = none;
}

open_transport-IsOpen : IsOpen open_transport
open_transport-IsOpen = record { opens = λ n. refl; takes = λ n bytes. refl }

send-read_example :
    (let sent = send open_transport (ready codec config sender) (AvPacket.media frame) in
      (sent.result ≡ ok tt)
      × (sent.sender.gop_id ≡ next_id sender.gop_id)
      × ((after : Reader) × (read_stream_ids
              (record { input = written_to sender.streams sent.effects ++ []; ends = true })
            ≡ (ok (gop_of_sender sender), after))
          × (read_packets 3 after ≡ (
            ok (AvPacket.codec codec ∷ AvPacket.media config ∷ AvPacket.media frame ∷ []),
            record { input = []; ends = true },
          ))))
send-read_example =
    send-read open_transport codec config frame sender [] true open_transport-IsOpen
      (record { gop_id_lt = omega arith; codec_gen_lt = omega arith; config_gen_lt = omega arith })
      (record {
        codec_pos = omega arith;
        codec_lt = omega arith;
        rotation_lt = omega arith;
        frame_size_lt = omega arith;
      })
      (record { pts_lt = omega arith; size_lt = omega arith }, refl)
      (record { pts_lt = omega arith; size_lt = omega arith }, refl) refl refl
