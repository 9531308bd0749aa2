-- ===== src/Audio/Sender/Delivery.antt =====
-- The datagrams that the sender of audio_unreliable.rs makes of a packet, as the receiver parses them.
use plank_kymux.Common.{
  ℕ, zero, suc, ◌+◌, ◌%◌, ◌^◌, ◌≤◌, ◌<◌, min, ◌≡◌, refl, ◌∙◌, Bool, true, false, List, [], ◌∷◌, map,
  arith, ltb, ◌==◌, ok, length, take, drop, take-append-drop, length-drop,
}
use plank_kymux.Wire.{Bytes}
use plank_kymux.Video.Sender.{Channel}
use plank_kymux.Video.Sender.Pieces.{pieces, pieces_empty, concat}
use plank_kymux.Audio.Receiver.{DatagramMsg, parse_datagram}
use plank_kymux.Audio.Sender.{AudioSender, datagram_of, send_loop}

-- The receiver reads the header fields of a datagram, and its piece, as the sender wrote them.
parse_datagram-datagram_of :
    (c : Channel) (s : AudioSender) (n : ℕ) (end : Bool) (piece : Bytes)
    → s.kypacket_seq < 2 ^ 32
    → n < 2 ^ 31
    → parse_datagram (datagram_of c s n end piece)
      ≡ ok (record {
        bytes = piece;
        raw_kypacket_seq = s.kypacket_seq;
        datagram_number = n;
        end = end;
      })
unfolding parse_datagram datagram_of
parse_datagram-datagram_of c s n true piece v h = ground arith
parse_datagram-datagram_of c s n false piece v h = ground arith

-- The messages of pieces numbered from `n` on.
abbrev pub msgs_of : AudioSender → ℕ → List Bytes → List DatagramMsg
msgs_of s n [] = []
msgs_of s n (p ∷ ps) =
    record {
      bytes = p;
      raw_kypacket_seq = s.kypacket_seq;
      datagram_number = n;
      end = 0 == length ps;
    }
    ∷ msgs_of s (n + 1) ps

-- For a sender with a 32-bit sequence number, a channel that takes every datagram and has room for 1
-- to 65535 bytes in each, and fuel for the data that is at most 2^31 with the first number: the loop
-- succeeds; the receiver parses its datagrams to the pieces of the data, with the number of the
-- packet, numbered in order, the end flag on the last; and the pieces together are the data.
pub send_loop-parse :
    (c : Channel) (s : AudioSender) (size fuel : ℕ) (bytes : Bytes) (n : ℕ)
    → ((d : Bytes) → c.takes_datagram d ≡ true)
    → s.kypacket_seq < 2 ^ 32
    → 0 < size
    → size < 2 ^ 16
    → length bytes ≤ fuel
    → n + fuel ≤ 2 ^ 31
    → ((send_loop c s size fuel bytes n).0 ≡ ok tt)
      × (map parse_datagram (send_loop c s size fuel bytes n).1
          ≡ map ok (msgs_of s n (pieces size fuel bytes)))
      × (concat (pieces size fuel bytes) ≡ bytes)
unfolding send_loop pieces
send_loop-parse c s size fuel [] n t v h hs l w = (refl, refl, refl)
send_loop-parse c s size zero (b ∷ bs) n t v h hs l w = absurd (omega arith)
send_loop-parse c s size (suc fuel) (b ∷ bs) n t v h hs l w =
    let k = min size (length (b ∷ bs)) in
    let left = drop k (b ∷ bs) in
    let end = k == length (b ∷ bs) in
    let short : length left ≤ fuel = omega (arith, length-drop k (b ∷ bs)) in
    let last : (0 == length (pieces size fuel left)) ≡ end =
      pieces_empty size fuel left h short ∙ ground (arith, length-drop k (b ∷ bs)) in
    let (done, sent, whole) =
      send_loop-parse c s size fuel left (n + 1) t v h hs short (omega arith) in
    let below : ltb k (2 ^ 16) ≡ true = ground arith in
    let same : (n + 1) % 2 ^ 32 ≡ n + 1 = omega arith in
    let head = parse_datagram-datagram_of c s n end (take k (b ∷ bs)) v (omega arith) in
    (
      rw (below, same, t (datagram_of c s n end (take k (b ∷ bs)))) done,
      rw (below, same, t (datagram_of c s n end (take k (b ∷ bs))), last, head, sent),
      rw whole (take-append-drop k (b ∷ bs)),
    )
