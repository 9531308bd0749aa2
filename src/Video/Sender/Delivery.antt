-- ===== src/Video/Sender/Delivery.antt =====
-- What `send` hands to the channel for a media packet, against what the receiver makes of it.
use plank_kymux.Common.{
  ℕ, zero, suc, ◌+◌, ◌-◌, ◌^◌, ◌≤◌, ◌<◌, ◌≡◌, refl, ap, inl, inr, Bool, true, false, none, some,
  List, [], ◌∷◌, arith, ltb, ◌==◌, Option-cases, Result, ok, ◌>>=◌, length, get_elem?,
}
use plank_kymux.Wire.{Bytes, IoError}
use plank_kymux.Av.Packet.{AvPacket, MediaPacket}
use plank_kymux.Av.Headers.{IsMediaHeader}
use plank_kymux.Video.Receiver.{DatagramMsg, datagram_header_size, parse_datagram}
use plank_kymux.Video.Segments.{DatagramPacket, DatagramSegments, set_segment, assemble}
use mathlib.Core.Option
use mathlib.Core.Path.{fun_ext}
use plank_kymux.Video.Segments
use plank_kymux.Video.Segments.Reassembly.{deliver, contains, reassembly}
use plank_kymux.Video.Segments.Partial.{is_last}
use plank_kymux.Video.Sender.{
  Channel, VideoSender, datagram_of, send_sized, send_media, wire, send, next_seq,
}
use plank_kymux.Video.Sender.Pieces.{
  pieces, datagrams_of, concat-pieces, length-pieces, length-datagrams_of, send_loop-datagrams_of,
}

-- The counters of a sender are u32.
pub record IsSender (s : VideoSender) : Type 0 where
  pub kypacket_lt : s.kypacket_seq < 2 ^ 32
  pub group_lt : s.group_seq < 2 ^ 32

-- The receiver reads the header fields of a datagram, and its piece, as the sender wrote them.
pub parse_datagram-datagram_of :
    (c : Channel) (s : VideoSender) (n : ℕ) (end : Bool) (piece : Bytes)
    → IsSender s
    → n < 2 ^ 31
    → parse_datagram (datagram_of c s n end piece)
      ≡ ok (record {
        bytes = piece;
        raw_kypacket_seq = s.kypacket_seq;
        raw_group_seq = s.group_seq;
        datagram_number = n;
        end = end;
      })
unfolding parse_datagram datagram_of
parse_datagram-datagram_of c s n true piece v h = ground arith
parse_datagram-datagram_of c s n false piece v h = ground arith

-- The messages that the receiver reads from the datagrams of pieces numbered from `n` on.
abbrev pub msgs_of : VideoSender → ℕ → List Bytes → List DatagramMsg
msgs_of s n [] = []
msgs_of s n (p ∷ ps) =
    record {
      bytes = p;
      raw_kypacket_seq = s.kypacket_seq;
      raw_group_seq = s.group_seq;
      datagram_number = n;
      end = 0 == length ps;
    }
    ∷ msgs_of s (n + 1) ps

abbrev pub parse_all : List Bytes → Result IoError (List DatagramMsg)
parse_all [] = ok []
parse_all (d ∷ ds) = parse_datagram d >>= λ m. parse_all ds >>= λ ms. ok (m ∷ ms)

parse_all-datagrams_of :
    (c : Channel) (s : VideoSender) (n : ℕ) (ps : List Bytes)
    → IsSender s
    → n + length ps ≤ 2 ^ 31
    → parse_all (datagrams_of c s n ps) ≡ ok (msgs_of s n ps)
unfolding datagrams_of
parse_all-datagrams_of c s n [] v h = refl
parse_all-datagrams_of c s n (p ∷ ps) v h = rw (
  parse_datagram-datagram_of c s n (0 == length ps) p v (omega arith),
  parse_all-datagrams_of c s (n + 1) ps v (omega arith),
)

-- What is asked of a channel: it takes every datagram, and its datagrams hold more than the header
-- and less than 64 KiB of payload.
pub record IsReliable (c : Channel) (size : ℕ) : Type 0 where
  pub max_size : c.max_datagram_size ≡ some (size + datagram_header_size)
  pub size_pos : 0 < size
  pub size_lt : size < 2 ^ 16
  pub takes : (d : Bytes) → c.takes_datagram d ≡ true

abbrev pub cut : ℕ → Bytes → List Bytes
cut size bytes = pieces size (length bytes) bytes

-- A media packet leaves as the datagrams of its pieces, and the sequence number moves on by one.
pub send_datagrams_lem :
    (c : Channel) (s : VideoSender) (p : MediaPacket) (size : ℕ) (bytes : Bytes)
    → IsReliable c size
    → p.header.is_config ≡ false
    → wire p ≡ ok bytes
    → length bytes < 2 ^ 31
    → send c s (AvPacket.media p) ≡ record {
      result = ok tt;
      sender = record s { kypacket_seq = next_seq s.kypacket_seq };
      written = [];
      datagrams = datagrams_of c s 0 (cut size bytes);
    }
unfolding send send_media send_sized
send_datagrams_lem c s p size bytes r m w l =
    let fits : ltb datagram_header_size (size + datagram_header_size) ≡ true =
      ground (arith, r.size_pos) in
    let left : size + datagram_header_size - datagram_header_size ≡ size = omega arith in
    let run =
      send_loop-datagrams_of c s size (length bytes) bytes 0 r.takes r.size_pos r.size_lt
        (omega arith) (omega arith) in
    rw (w, m) (simp r.max_size (rw (fits, left, run)))

-- Messages in the order of the indices `is`, where an index may come again; one that is out of range
-- stands for nothing.
abbrev pub pick {ℓ} : {A : Type ℓ} → List ℕ → List A → List A
pick [] ms = []
pick (i ∷ is) ms = elim (get_elem? ms i) [ none ↦ pick is ms | some m ↦ m ∷ pick is ms ]

-- The messages of one kypacket, put into its segments.
unfoldable pub receive : List DatagramMsg → DatagramSegments → Result IoError DatagramSegments
receive [] s = ok s
receive (m ∷ ms) s = set_segment s m.datagram_number m.bytes m.end >>= receive ms

abbrev msg_at : VideoSender → ℕ → ℕ → Bytes → DatagramMsg
msg_at s total i p = record {
  bytes = p;
  raw_kypacket_seq = s.kypacket_seq;
  raw_group_seq = s.group_seq;
  datagram_number = i;
  end = is_last total i;
}

get_elem?-msgs_of :
    (s : VideoSender) (n total i : ℕ) (ps : List Bytes)
    → n + length ps ≡ total
    → get_elem? (msgs_of s n ps) i ≡ Option.map (msg_at s total (n + i)) (get_elem? ps i)
get_elem?-msgs_of s n total i [] h = refl
get_elem?-msgs_of s n total zero (p ∷ ps) h = ground arith
get_elem?-msgs_of s n total (suc i) (p ∷ ps) h =
    let e : n + suc i ≡ n + 1 + i = omega arith in
    rw e (get_elem?-msgs_of s (n + 1) total i ps (omega arith))

receive-pick :
    (s : VideoSender) (ps : List Bytes) (is : List ℕ) (d : DatagramSegments)
    → receive (pick is (msgs_of s 0 ps)) d ≡ deliver ps is d
unfolding receive deliver
receive-pick s ps [] d = refl
receive-pick s ps (i ∷ is) d =
    let at_i = get_elem?-msgs_of s 0 (length ps) i ps (omega arith) in
    elim (Option-cases (get_elem? ps i)) [
      | inl e ↦ rw (at_i, e, pick, deliver) (receive-pick s ps is d)
      | inr (p, e) ↦
          let z : 0 + i ≡ i = omega arith in
          rw (at_i, e, pick, deliver, z)
            (ap
              (λ (k : DatagramSegments → Result IoError DatagramSegments).
                set_segment d i p (is_last (length ps) i) >>= k)
              (fun_ext (receive-pick s ps is)))
    ]

-- What the sender hands to a reliable channel for a media packet: datagrams that the receiver parses,
-- and from which, in whatever order they arrive and however often, as long as each arrives, it puts
-- the same packet together.
pub send-reassembly :
    (c : Channel) (s : VideoSender) (p : MediaPacket) (size : ℕ) (bytes : Bytes) (is : List ℕ)
    (k now : ℕ)
    → IsReliable c size
    → IsSender s
    → p.header.is_config ≡ false
    → IsMediaHeader p.header
    → wire p ≡ ok bytes
    → length bytes < 2 ^ 31
    → ((j : ℕ) → j < length (send c s (AvPacket.media p)).datagrams → contains is j ≡ true)
    → (parse_all (send c s (AvPacket.media p)).datagrams >>= λ ms.
        receive (pick is ms) (Segments.new k) >>= λ d. assemble d now)
      ≡ ok (record { packet = AvPacket.media p; kypacket_seq = k; instant = now })
send-reassembly c s p size bytes is k now r v m h w l all =
    let ps = cut size bytes in
    let sent = send_datagrams_lem c s p size bytes r m w l in
    let whole = concat-pieces size (length bytes) bytes r.size_pos (omega arith) in
    let few = length-pieces size (length bytes) bytes in
    let parsed = parse_all-datagrams_of c s 0 ps v (omega (arith, few)) in
    let every : (j : ℕ) → j < length ps → contains is j ≡ true =
      rw (sent, length-datagrams_of c s 0 ps) at all in
    rw (sent, parsed, receive-pick s ps is (Segments.new k))
      (reassembly ps p bytes is k now h w whole every)
