-- ===== src/Fec/Media/Safety.antt =====
-- `media_packet` and `read_stream_packet` of fec.rs on bytes of a peer's choice.
use plank_kymux.Common.{
  ℕ, suc, ◌+◌, ◌-◌, ◌≤◌, min, ◌≡◌, refl, sym, ap, ◌∙◌, inl, inr, true, false, not, ◌&&◌, [], ◌∷◌,
  ◌++◌, arith, leb, ◌==◌, leb→le, ==_iff, Bool-cases, Result, ok, err, panic, >>=-eq-ok, length,
  take, drop, length-append, length-take, length-drop, take-length_append, drop-length_append, Safe,
  Safe-bind, Safe-guard_then, Safe-ok, both, not-eq-true,
}
use plank_kymux.Wire.{Bytes, IoError, Reader, read_exact}
use plank_kymux.Av.Packet.{
  AvPacket, CodecPacket, MediaPacket, MediaPacketHeader, serialized_size, at, zero_tag,
}
use plank_kymux.Av.Headers.{IsMediaHeader, media_deserialize-serialize}
use plank_kymux.Av.Codec
use plank_kymux.Av.Media
use plank_kymux.Video.Sender.{wire}
use plank_kymux.Fec.{FecError, max_config_payload}
use plank_kymux.Fec.Validation.{IsReal}
use plank_kymux.Fec.Media.{
  is_media, lifted, media_packet, with_payload, read_config, after_raw, read_stream_packet,
}

at-take : (n : ℕ) (bytes : Bytes) → at (take (suc n) bytes) 0 ≡ at bytes 0
at-take n [] = refl
at-take n (b ∷ bytes) = refl

abbrev Anything {ℓ} : {A : Type ℓ} → A → Type 0
Anything a = Unit {0}

deserialize_lem :
    (raw : Bytes)
    → length raw ≡ serialized_size
    → is_media raw ≡ true
    → (h : MediaPacketHeader) × (Media.deserialize raw ≡ ok h)
unfolding Media.deserialize
deserialize_lem raw sized tag = Safe-ok (Media.deserialize raw) (ground arith)

codec_deserialize_lem :
    (raw : Bytes)
    → length raw ≡ serialized_size
    → is_media raw ≡ false
    → Safe IsReal Anything (lifted (Codec.deserialize raw))
unfolding Codec.deserialize
codec_deserialize_lem raw sized tag = ground arith

-- A media packet that is no config packet, of the size that its header says.
pub record IsMediaOf (size : ℕ) (p : AvPacket) : Type 0 where
  pub media : MediaPacket
  pub same : p ≡ AvPacket.media media
  pub no_config : media.header.is_config ≡ false
  pub header_size : media.header.size ≡ length media.payload
  pub whole : serialized_size + length media.payload ≡ size

deserialize_prefix :
    (bytes : Bytes)
    → leb serialized_size (length bytes) ≡ true
    → is_media bytes ≡ true
    → (h : MediaPacketHeader) × (Media.deserialize (take serialized_size bytes) ≡ ok h)
deserialize_prefix bytes enough tag =
    deserialize_lem (take serialized_size bytes)
      (length-take serialized_size bytes ∙ omega (arith, leb→le _ _ enough))
      (ap (λ (b : ℕ). leb 0x80 b) (at-take 11 bytes) ∙ tag)

IsMediaOf-parts :
    (bytes : Bytes) (h : MediaPacketHeader)
    → leb serialized_size (length bytes) ≡ true
    → h.is_config ≡ false
    → (h.size == length bytes - serialized_size) ≡ true
    → IsMediaOf
        (length bytes)
        (AvPacket.media (record { header = h; payload = drop serialized_size bytes }))
IsMediaOf-parts bytes h enough no_config sized = record {
  media = record { header = h; payload = drop serialized_size bytes };
  same = refl;
  no_config = no_config;
  header_size = (==_iff _ _).0 sized ∙ sym (length-drop serialized_size bytes);
  whole = omega (arith, length-drop serialized_size bytes, leb→le _ _ enough);
}

-- Whatever the object holds, it does not panic.
pub media_packet_lem : (bytes : Bytes) → Safe IsReal (IsMediaOf (length bytes)) (media_packet bytes)
unfolding media_packet
media_packet_lem bytes =
    Safe-guard_then IsReal (IsMediaOf (length bytes))
      (leb serialized_size (length bytes) && is_media bytes) FecError.not_media _ refl
      λ ready.
        let (enough, tag) = both (leb serialized_size (length bytes)) (is_media bytes) ready in
        let (h, got) = deserialize_prefix bytes enough tag in
        rw got (
          Safe-guard_then IsReal (IsMediaOf (length bytes))
            (not h.is_config && h.size == length bytes - serialized_size) FecError.media_mismatch _
            refl
            λ fits.
              let (no_config, sized) = both (not h.is_config) _ fits in
              IsMediaOf-parts bytes h enough (not-eq-true h.is_config no_config) sized)

-- What the companion stream may bring: a codec packet, or a config packet of bounded size.
pub data IsRecord (max_payload : ℕ) : AvPacket → Type 0 where
  codec : (p : CodecPacket) → IsRecord max_payload (AvPacket.codec p)
  config :
      (m : MediaPacket)
      → m.header.is_config ≡ true
      → m.header.size ≡ length m.payload
      → m.header.size ≤ min max_payload max_config_payload
      → IsRecord max_payload (AvPacket.media m)

read_exact_lem :
    (n : ℕ) (r : Reader) → Safe (λ e. Unit {0}) (λ bytes. length bytes ≡ n) (read_exact n r).0
unfolding read_exact
read_exact_lem n r = ground (arith, length-take n r.input)

with_payload_lem :
    (max_payload : ℕ) (h : MediaPacketHeader)
    → h.is_config ≡ true
    → h.size ≤ min max_payload max_config_payload
    → (q : Result IoError Bytes × Reader)
    → Safe (λ e. Unit {0}) (λ bytes. length bytes ≡ h.size) q.0
    → Safe IsReal (IsRecord max_payload) (with_payload h q).0
with_payload_lem max_payload h flagged small (ok payload, rest) sized =
    IsRecord.config (record { header = h; payload = payload }) flagged (sym sized) small
with_payload_lem max_payload h flagged small (err e, rest) sized = refl
with_payload_lem max_payload h flagged small (panic, rest) sized = sized

read_config_lem :
    (max_payload : ℕ) (h : MediaPacketHeader) (r : Reader)
    → Safe IsReal (IsRecord max_payload) (read_config max_payload (ok h) r).0
read_config_lem max_payload h r =
    elim (Bool-cases (h.is_config && leb h.size (min max_payload max_config_payload))) [
      | inl fits ↦
          let (flagged, small) = both h.is_config _ fits in
          rw fits (
            with_payload_lem max_payload h flagged (leb→le _ _ small) (read_exact h.size r)
              (read_exact_lem h.size r))
      | inr large ↦ rw large refl
    ]

after_raw_lem :
    (max_payload : ℕ) (q : Result IoError Bytes × Reader)
    → Safe (λ e. Unit {0}) (λ raw. length raw ≡ serialized_size) q.0
    → Safe IsReal (IsRecord max_payload) (after_raw max_payload q).0
after_raw_lem max_payload (ok raw, rest) sized = elim (Bool-cases (is_media raw)) [
  | inl media ↦
      let (h, got) = deserialize_lem raw sized media in
      rw (media, got) (read_config_lem max_payload h rest)
  | inr other ↦ elim (Bool-cases (zero_tag raw)) [
    | inl hole ↦ rw (other, hole) refl
    | inr tagged ↦
        rw (other, tagged)
          (Safe-bind IsReal (λ h. Unit {0}) (IsRecord max_payload) (lifted (Codec.deserialize raw))
            _ (codec_deserialize_lem raw sized other)
            λ h e v. IsRecord.codec (record { header = h }))
  ]
]
after_raw_lem max_payload (err e, rest) sized = refl
after_raw_lem max_payload (panic, rest) sized = sized

-- Whatever comes over the stream, reading a packet does not panic, and gives a codec packet or a
-- config packet whose payload is within the limit.
pub read_stream_packet_lem :
    (max_payload : ℕ) (r : Reader)
    → Safe IsReal (IsRecord max_payload) (read_stream_packet max_payload r).0
unfolding read_stream_packet
read_stream_packet_lem max_payload r =
    after_raw_lem max_payload (read_exact serialized_size r) (read_exact_lem serialized_size r)

serialized :
    (h : MediaPacketHeader) (raw : Bytes)
    → Media.serialize h ≡ ok raw
    → (length raw ≡ serialized_size) × (is_media raw ≡ true)
unfolding Media.serialize Media.pts_and_flags
serialized h raw e = ground arith

-- An object that holds the wire form of a media packet gives that packet back.
pub media_packet-wire :
    (m : MediaPacket) (bytes : Bytes)
    → IsMediaHeader m.header
    → m.header.is_config ≡ false
    → m.header.size ≡ length m.payload
    → wire m ≡ ok bytes
    → media_packet bytes ≡ ok (AvPacket.media m)
unfolding media_packet wire
media_packet-wire m bytes v no_config sized e =
    let (raw, made, same) = >>=-eq-ok (Media.serialize m.header) (λ h. ok (h ++ m.payload)) e in
    let (long, tag) = serialized m.header raw made in
    let back : Media.deserialize raw ≡ ok m.header =
      rw made at (media_deserialize-serialize m.header v) in
    let split : bytes ≡ raw ++ m.payload = cc in
    let head : take serialized_size (raw ++ m.payload) ≡ raw =
      rw long at (take-length_append raw m.payload) in
    let tail : drop serialized_size (raw ++ m.payload) ≡ m.payload =
      rw long at (drop-length_append raw m.payload) in
    let enough : leb serialized_size (length (raw ++ m.payload)) ≡ true =
      ground (arith, long, length-append raw m.payload) in
    let tagged : is_media (raw ++ m.payload) ≡ true =
      ap (λ (b : ℕ). leb 0x80 b)
        (sym (at-take 11 (raw ++ m.payload)) ∙ ap (λ (bs : Bytes). at bs 0) head)
      ∙ tag in
    let fits : (m.header.size == length (raw ++ m.payload) - serialized_size) ≡ true =
      (==_iff _ _).1 (omega (arith, long, length-append raw m.payload)) in
    rw (split, enough, tagged, head, tail, back, no_config, fits)
