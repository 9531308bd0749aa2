-- ===== src/VideoFec/Segments.antt =====
-- `DatagramSegments` and `VideoFecStats` of video_unreliable_fec.rs: the symbols of one object, until
-- it can be put together.
use plank_kymux.Common.{
  ℕ, ◌+◌, ◌-◌, Bool, true, false, Option, none, some, if◌then◌else◌, Result, ok, err, ◌>>=◌,
}
use plank_kymux.Wire.{Bytes}
use plank_kymux.Av.Packet.{AvPacket}
use plank_kymux.Fec.{Oti, PayloadId, Raptorq, FecError, source_symbols, max_video_payload}
use plank_kymux.Fec.Decoder
use plank_kymux.Fec.Decoder.{ObjectDecoder, decode}
use plank_kymux.Fec.Media.{media_packet}

pub record FecStats : Type 0 where
  pub source_symbols : ℕ
  pub missing_source_symbols : ℕ
  pub unrecovered_source_symbols : ℕ

-- `VideoFecStats::default`
abbrev pub no_stats : FecStats
no_stats = record { source_symbols = 0; missing_source_symbols = 0; unrecovered_source_symbols = 0 }

-- The counters are unbounded here.
abbrev pub accumulate : FecStats → FecStats → FecStats
accumulate s t = record {
  source_symbols = s.source_symbols + t.source_symbols;
  missing_source_symbols = s.missing_source_symbols + t.missing_source_symbols;
  unrecovered_source_symbols = s.unrecovered_source_symbols + t.unrecovered_source_symbols;
}

-- A packet put together, with the time of that.
pub record DatagramPacket : Type 0 where
  pub oti : Oti
  pub packet : AvPacket
  pub kypacket_seq : ℕ
  pub instant : ℕ
  pub fec_stats : FecStats

pub record DatagramSegments (D : Type 0) : Type 0 where
  pub kypacket_seq : ℕ
  pub decoder : ObjectDecoder D
  pub assembled : Option Bytes
  pub created : ℕ

abbrev pub is_some {ℓ} : {A : Type ℓ} → Option A → Bool
is_some none = false
is_some (some a) = true

abbrev pub assembled_or : Option Bytes → Result FecError Bytes
assembled_or none = err FecError.incomplete_object
assembled_or (some bytes) = ok bytes

module _ {D : Type 0} where
  abbrev pub is_complete : DatagramSegments D → Bool
  is_complete s = is_some s.assembled

  -- `-` stops at 0, as `saturating_sub` does.
  unfoldable pub fec_stats : DatagramSegments D → FecStats
  fec_stats s =
      let symbols = source_symbols s.decoder.oti in
      let missing = symbols - s.decoder.received_sources in
      record {
        source_symbols = symbols;
        missing_source_symbols = missing;
        unrecovered_source_symbols = if is_complete s then 0 else missing;
      }

  unfoldable pub assemble : DatagramSegments D → ℕ → Result FecError DatagramPacket
  assemble s now = do
    bytes ← assembled_or s.assembled
    packet ← media_packet bytes
    ok (record {
      oti = s.decoder.oti;
      packet = packet;
      kypacket_seq = s.kypacket_seq;
      instant = now;
      fec_stats = fec_stats s;
    })

  module _ (R : Raptorq D) where
    unfoldable pub new : ℕ → Oti → ℕ → Result FecError (DatagramSegments D)
    new k oti now = do
      decoder ← Decoder.new R oti max_video_payload
      ok (record { kypacket_seq = k; decoder = decoder; assembled = none; created = now })

    unfoldable pub add_packet :
        DatagramSegments D → Oti → PayloadId → Bytes → Result FecError (DatagramSegments D)
    add_packet s oti id bytes = do
      (got, decoder) ← decode R s.decoder oti id bytes
      ok (record s { decoder = decoder; assembled = got })
