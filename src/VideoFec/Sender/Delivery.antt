-- ===== src/VideoFec/Sender/Delivery.antt =====
-- The datagrams of the sender of video_unreliable_fec.rs, as the receiver parses them.
use plank_kymux.Common.{
  ℕ, suc, ◌+◌, ◌-◌, ◌^◌, ◌<◌, ◌≡◌, refl, sym, ap, ◌∙◌, true, List, [], ◌∷◌, ◌++◌, map, arith, leb,
  ok, length, take, drop, All, length-append, take-length_append, drop-length_append,
}
use plank_kymux.Wire.{Bytes}
use plank_kymux.Wire.Ints.{of_be32_lem}
use plank_kymux.Av.Packet.{at}
use plank_kymux.Fec
use plank_kymux.Fec.{Oti, PayloadId, Raptorq, validate_oti, validate_symbol, max_video_payload}
use plank_kymux.Fec.Validation.{IsValidOti, parse_datagram-slices}
use plank_kymux.Video.Sender.{Channel, VideoSender}
use plank_kymux.VideoFec.Receiver.{DatagramMsg, datagram_header_size, parse}
use plank_kymux.VideoFec.Sender.{Encoder, datagram_of, send_packets}

-- What the integers of the source hold.
pub record IsOti (oti : Oti) : Type 0 where
  pub transfer_length_lt : oti.transfer_length < 2 ^ 40
  pub symbol_size_lt : oti.symbol_size < 2 ^ 16
  pub source_blocks_lt : oti.source_blocks < 2 ^ 8
  pub sub_blocks_lt : oti.sub_blocks < 2 ^ 16
  pub symbol_alignment_lt : oti.symbol_alignment < 2 ^ 8

pub record IsId (id : PayloadId) : Type 0 where
  pub source_block_number_lt : id.source_block_number < 2 ^ 8
  pub encoding_symbol_id_lt : id.encoding_symbol_id < 2 ^ 24

-- RaptorQ reads what it writes: twelve bytes with a reserved one that is 0, and four bytes.
pub record IsInverse {D : Type 0} (R : Raptorq D) (e : Encoder) : Type 0 where
  pub oti_back : (oti : Oti) → IsOti oti → R.deserialize_oti (e.serialize_oti oti) ≡ oti
  pub id_back : (id : PayloadId) → IsId id → R.deserialize_id (e.serialize_id id) ≡ id
  pub oti_length : (oti : Oti) → length (e.serialize_oti oti) ≡ 12
  pub id_length : (id : PayloadId) → length (e.serialize_id id) ≡ 4
  pub reserved : (oti : Oti) → at (e.serialize_oti oti) 5 ≡ 0

pub record IsSender (s : VideoSender) : Type 0 where
  pub kypacket_seq_lt : s.kypacket_seq < 2 ^ 32
  pub group_seq_lt : s.group_seq < 2 ^ 32

-- Symbols of an object: of its blocks, and of the symbol size.
abbrev pub IsSymbol : Oti → PayloadId × Bytes → Type 0
IsSymbol oti (id, symbol) =
    IsId id × (id.source_block_number < oti.source_blocks) × (length symbol ≡ oti.symbol_size)

abbrev pub msg_of : VideoSender → Oti → PayloadId × Bytes → DatagramMsg
msg_of s oti (id, symbol) = record {
  bytes = symbol;
  raw_kypacket_seq = s.kypacket_seq;
  raw_group_seq = s.group_seq;
  oti = oti;
  payload_id = id;
}

validate_oti_complete : (oti : Oti) (m : ℕ) → IsValidOti oti m → validate_oti oti m ≡ ok tt
unfolding validate_oti
validate_oti_complete oti m v = ground arith

validate_symbol_complete :
    (oti : Oti) (id : PayloadId) (size : ℕ)
    → id.source_block_number < oti.source_blocks
    → size ≡ oti.symbol_size
    → validate_symbol oti id size ≡ ok tt
unfolding validate_symbol
validate_symbol_complete oti id size h same = ground arith

drop-length_add : (xs ys : Bytes) (m : ℕ) → drop (length xs + m) (xs ++ ys) ≡ drop m ys
drop-length_add [] ys m = let e : 0 + m ≡ m = omega arith in ap (λ k. drop k ys) e
drop-length_add (x ∷ xs) ys m =
    let e : suc (length xs) + m ≡ suc (length xs + m) = omega arith in
    ap (λ k. drop k (x ∷ (xs ++ ys))) e ∙ drop-length_add xs ys m

drop-past : (xs ys : Bytes) (n m : ℕ) → length xs ≡ n → drop (n + m) (xs ++ ys) ≡ drop m ys
drop-past xs ys n m h = rw (← h) (drop-length_add xs ys m)

module _ {D : Type 0} (R : Raptorq D) (e : Encoder) (v : IsInverse R e) where
  -- A datagram given by its parts: 26 bytes of header that end with those of RaptorQ, and a symbol.
  parse_datagram-parts :
      (oti : Oti) (id : PayloadId) (symbol buf : Bytes)
      → take 12 (drop 10 buf) ≡ e.serialize_oti oti
      → take 4 (drop 22 buf) ≡ e.serialize_id id
      → drop 26 buf ≡ symbol
      → length buf ≡ 26 + length symbol
      → IsOti oti
      → IsValidOti oti max_video_payload
      → IsSymbol oti (id, symbol)
      → Fec.parse_datagram R buf datagram_header_size max_video_payload ≡ ok (symbol, oti, id)
  unfolding Fec.parse_datagram
  parse_datagram-parts oti id symbol buf raw raw_id rest size w valid (known, block, sized) =
      let enough : leb 26 (length buf) ≡ true = ground (arith, size) in
      let left : length buf - 26 ≡ length symbol = omega (arith, size) in
      rw (
        parse_datagram-slices R buf 26 max_video_payload (omega arith) enough,
        raw,
        raw_id,
        rest,
        left,
        v.reserved oti,
        v.oti_back oti w,
        v.id_back id known,
        validate_oti_complete oti max_video_payload valid,
        validate_symbol_complete oti id (length symbol) block sized,
      )

  parse-datagram_of :
      (c : Channel) (s : VideoSender) (oti : Oti) (id : PayloadId) (symbol : Bytes)
      → IsSender s
      → IsOti oti
      → IsValidOti oti max_video_payload
      → IsSymbol oti (id, symbol)
      → parse R (datagram_of e c s oti id symbol) ≡ ok (msg_of s oti (id, symbol))
  unfolding parse datagram_of
  parse-datagram_of c s oti id symbol vs w valid sym =
      let raw = e.serialize_oti oti in
      let raw_id = e.serialize_id id in
      let front : take 12 (raw ++ (raw_id ++ symbol)) ≡ raw =
        rw (v.oti_length oti) at (take-length_append raw (raw_id ++ symbol)) in
      let ids : take 4 (raw_id ++ symbol) ≡ raw_id =
        rw (v.id_length id) at (take-length_append raw_id symbol) in
      let rest : drop 4 (raw_id ++ symbol) ≡ symbol =
        rw (v.id_length id) at (drop-length_append raw_id symbol) in
      let size : length (raw ++ (raw_id ++ symbol)) ≡ 16 + length symbol = omega (
        arith,
        length-append raw (raw_id ++ symbol),
        length-append raw_id symbol,
        v.oti_length oti,
        v.id_length id,
      ) in
      let buf = datagram_of e c s oti id symbol in
      let at_ids : take 4 (drop 22 buf) ≡ raw_id =
        rw (drop-past raw (raw_id ++ symbol) 12 0 (v.oti_length oti)) ids in
      let at_rest : drop 26 buf ≡ symbol =
        rw (drop-past raw (raw_id ++ symbol) 12 4 (v.oti_length oti)) rest in
      let sized : length buf ≡ 26 + length symbol = omega (arith, size) in
      let parts = parse_datagram-parts oti id symbol buf front at_ids at_rest sized w valid sym in
      rw (
        parts,
        of_be32_lem s.kypacket_seq vs.kypacket_seq_lt,
        of_be32_lem s.group_seq vs.group_seq_lt,
      )

  -- With RaptorQ reading back what it writes, a sender of 32-bit sequence numbers on a channel that
  -- takes every datagram sends a datagram for each encoded packet, in order; when these are symbols of
  -- an object within the bounds for video and the widths of the integers, the receiver parses each datagram to the symbol, its id,
  -- the description of the object and the two sequence numbers of the sender.
  pub send_packets-parse :
      (c : Channel) (s : VideoSender) (oti : Oti) (packets : List (PayloadId × Bytes))
      → ((d : Bytes) → c.takes_datagram d ≡ true)
      → IsSender s
      → IsOti oti
      → IsValidOti oti max_video_payload
      → All (IsSymbol oti) packets
      → ((send_packets e c s oti packets).0 ≡ ok tt)
        × (map (parse R) (send_packets e c s oti packets).1
            ≡ map (λ p. ok (msg_of s oti p)) packets)
  unfolding send_packets
  send_packets-parse c s oti [] takes vs w valid syms = (refl, refl)
  send_packets-parse c s oti ((id, symbol) ∷ packets) takes vs w valid (sym, syms) =
      let (done, sent) = send_packets-parse c s oti packets takes vs w valid syms in
      rw (takes (datagram_of e c s oti id symbol))
        (done, rw (parse-datagram_of c s oti id symbol vs w valid sym, sent))
