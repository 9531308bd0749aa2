-- ===== src/Gop/Broadcast.antt =====
-- What the client of video_gopstream.rs may rely on: before each frame it has been given the codec
-- packet and the config packet of the frame's group.
pub mod Synced
pub mod Packets
pub mod Runs
use plank_kymux.Common.{
  ℕ, zero, suc, ◌+◌, ◌≤◌, ◌<◌, ◌≡◌, Bool, true, false, Option, none, some, List, ◌==◌,
  if◌then◌else◌, Result, ok, ◌>>=◌, get_elem?, All,
}
use plank_kymux.Wire.{IoError}
use plank_kymux.Av.Packet.{AvPacket, CodecPacket, MediaPacket}
use plank_kymux.Gop.Receiver.{
  Gop, RecvMsg, new_stream, stream_ids, new_packet, GopReceiver, start, is_newer, take_packet,
  handle,
}

-- What is sent: for each group the generations of its codec and config packets and its frames, and for
-- each generation its packet.
pub record Broadcast : Type 0 where
  pub codec_gen : ℕ → ℕ
  pub config_gen : ℕ → ℕ
  pub codec_of : ℕ → CodecPacket
  pub config_of : ℕ → MediaPacket
  pub frames : ℕ → List MediaPacket

pub record IsBroadcast (b : Broadcast) : Type 0 where
  pub codec_mono : (i j : ℕ) → i ≤ j → b.codec_gen i ≤ b.codec_gen j
  pub config_mono : (i j : ℕ) → i ≤ j → b.config_gen i ≤ b.config_gen j
  pub codec_pos : (i : ℕ) → 0 < b.codec_gen i
  pub config_pos : (i : ℕ) → 0 < b.config_gen i
  pub is_config : (n : ℕ) → (b.config_of n).header.is_config ≡ true
  pub is_frame : (i : ℕ) → All (λ p. p.header.is_config ≡ false) (b.frames i)

module _ (b : Broadcast) where
  abbrev pub gop_of : ℕ → Gop
  gop_of i = record { id = i; codec_gen = b.codec_gen i; config_gen = b.config_gen i }

  -- Packet `n` of group `i`.
  abbrev pub packet_at : ℕ → ℕ → Option AvPacket
  packet_at i zero = some (AvPacket.codec (b.codec_of (b.codec_gen i)))
  packet_at i (suc zero) = some (AvPacket.media (b.config_of (b.config_gen i)))
  packet_at i (suc (suc n)) = elim (get_elem? (b.frames i) n) [
    | none ↦ none
    | some p ↦ some (AvPacket.media p)
  ]

-- A receiver, how many packets of its group have come, and what its client was given last.
pub record World : Type 0 where
  pub receiver : GopReceiver
  pub arrived : ℕ
  pub codec : Option CodecPacket
  pub config : Option MediaPacket

abbrev pub initial : World
initial = record { receiver = start; arrived = 0; codec = none; config = none }

-- What a client that was given a packet has.
abbrev pub given : World → Option AvPacket → World
given w none = w
given w (some (AvPacket.codec p)) = record w { codec = some p }
given w (some (AvPacket.media p)) = if p.header.is_config then record w { config = some p } else w
given w (some (AvPacket.hole p)) = w

abbrev is_current : Option Gop → ℕ → Bool
is_current none id = false
is_current (some gop) id = gop.id == id

abbrev pub count : World → RecvMsg → ℕ
count w new_stream = w.arrived
count w (stream_ids gop) = if is_newer w.receiver.gop gop then 0 else w.arrived
count w (new_packet p id) = if is_current w.receiver.gop id then w.arrived + 1 else w.arrived

unfoldable pub step : World → RecvMsg → Result IoError (World × Option AvPacket)
step w m = handle w.receiver m >>= λ q.
    ok (given (record w { receiver = q.0; arrived = count w m }) q.1, q.1)

-- The messages that may come next: the ids of any group; a packet of an older group, whose task is
-- being stopped; or the next packet of the group that is read.
pub data Comes (b : Broadcast) (w : World) : RecvMsg → Type 0 where
  opened : Comes b w new_stream
  ids : (i : ℕ) → Comes b w (stream_ids (gop_of b i))
  stale :
      (p : AvPacket) (id : ℕ) (gop : Gop)
      → w.receiver.gop ≡ some gop
      → id < gop.id
      → Comes b w (new_packet p id)
  fresh :
      (p : AvPacket) (id : ℕ)
      → w.receiver.gop ≡ some (gop_of b id)
      → packet_at b id w.arrived ≡ some p
      → Comes b w (new_packet p id)

-- The worlds that such messages lead to.
pub data Reaches (b : Broadcast) : World → Type 0 where
  begin : Reaches b initial
  onward :
      (w w' : World) (m : RecvMsg) (given : Option AvPacket)
      → Reaches b w
      → Comes b w m
      → step w m ≡ ok (w', given)
      → Reaches b w'

-- What may be given after the message `m`. A frame came with the id of the group that is read, and is
-- the next packet of that group, and the client has the group's codec and config packets; a codec or
-- config packet is of a generation that it has not been given.
abbrev pub IsConfigured : Broadcast → World → RecvMsg → World → Option AvPacket → Type 0
IsConfigured b w m w' none = Unit {0}
IsConfigured b w m w' (some (AvPacket.codec p)) =
    w.receiver.last_codec_gen < w'.receiver.last_codec_gen
IsConfigured b w m w' (some (AvPacket.media p)) =
    if p.header.is_config
    then w.receiver.last_config_gen < w'.receiver.last_config_gen
    else (i : ℕ) × (m ≡ new_packet (AvPacket.media p) i)
      × (w.receiver.gop ≡ some (gop_of b i))
      × (w'.receiver.gop ≡ some (gop_of b i))
      × (packet_at b i w.arrived ≡ some (AvPacket.media p))
      × (w'.codec ≡ some (b.codec_of (b.codec_gen i)))
      × (w'.config ≡ some (b.config_of (b.config_gen i)))
IsConfigured b w m w' (some (AvPacket.hole p)) = ⊥
