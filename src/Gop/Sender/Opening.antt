-- ===== src/Gop/Sender/Opening.antt =====
-- What a key frame of video_gopstream.rs puts on a new stream, and what the receiver reads of it.
use mathlib.Core.List.{append_assoc, append-nil}
use plank_kymux.Common.{
  ℕ, ◌+◌, ◌^◌, ◌<◌, ◌≡◌, refl, ap, ◌∙◌, Bool, true, false, Option, none, some, List, [], ◌∷◌, ◌++◌,
  ◌==◌, if◌then◌else◌, ==_iff, ok, >>=-eq-ok,
}
use plank_kymux.Wire.{Bytes, Reader}
use plank_kymux.Wire.Ints.{read_exact-append, of_be32_lem}
use plank_kymux.Av
use plank_kymux.Av.Packet.{AvPacket, CodecPacket, MediaPacket}
use plank_kymux.Av.Codec
use plank_kymux.Av.Media
use plank_kymux.Av.Stream.{IsInRange, read-write}
use plank_kymux.Gop.Receiver.{Gop, gop_of_ids, read_stream_ids, read_packets}
use plank_kymux.Gop.Sender.{
  Transport, Effect, finish_old, prepended, and_then, GopSender, Sent, next_id, ids_of, write_all,
  write_media, write_opening, start_gop, send_media, send,
}

-- The bytes that went to stream `n`.
unfoldable pub written_to : ℕ → List Effect → Bytes
written_to n [] = []
written_to n (Effect.opened m ∷ es) = written_to n es
written_to n (Effect.wrote m bytes ∷ es) =
    let rest = written_to n es in if m == n then bytes ++ rest else rest
written_to n (Effect.finished m ∷ es) = written_to n es

itself : (n : ℕ) → (n == n) ≡ true
itself n = (==_iff n n).1 refl

-- A transport that opens every stream and takes every write.
pub record IsOpen (t : Transport) : Type 0 where
  pub opens : (n : ℕ) → t.opens n ≡ true
  pub takes : (n : ℕ) (bytes : Bytes) → t.takes n bytes ≡ true

-- A sender that has a codec packet and a config packet.
abbrev pub ready : CodecPacket → MediaPacket → GopSender → GopSender
ready c g s = record s { codec_packet = some c; config_packet = some g }

abbrev opening : CodecPacket → MediaPacket → Bytes → GopSender → Bytes
opening c g head s = ids_of s ++ Codec.serialize c.header ++ head ++ g.payload

abbrev pub after_opening : GopSender → GopSender
after_opening s = record s {
  streams = s.streams + 1;
  gop_id = next_id s.gop_id;
  current_stream = some s.streams;
}

written_opening :
    (n : ℕ) (o : Option ℕ) (es : List Effect) → written_to n (finish_old o ++ es) ≡ written_to n es
unfolding written_to
written_opening n none es = refl
written_opening n (some m) es = refl

written_key :
    (n : ℕ) (o : Option ℕ) (a b c : Bytes)
    → written_to n (
        Effect.opened n ∷ Effect.wrote n a ∷ finish_old o
        ++ (Effect.wrote n b ∷ Effect.wrote n c ∷ []))
      ≡ a ++ (b ++ (c ++ []))
unfolding written_to
written_key n o a b c =
    rw (itself n, written_opening n o (Effect.wrote n b ∷ Effect.wrote n c ∷ []), itself n)

module _ (t : Transport) (v : IsOpen t) where
  write_all_lem :
      (n : ℕ) (bytes : Bytes) (s : GopSender)
      → write_all t n bytes s
        ≡ record { result = ok tt; sender = s; effects = Effect.wrote n bytes ∷ [] }
  unfolding write_all
  write_all_lem n bytes s = rw (v.takes n bytes)

  write_media_lem :
      (p : MediaPacket) (n : ℕ) (head : Bytes) (s : GopSender)
      → Media.serialize p.header ≡ ok head
      → (let s' = record s { current_stream = some n } in
          write_media t p s' ≡ record {
            result = ok tt;
            sender = s';
            effects = Effect.wrote n head ∷ Effect.wrote n p.payload ∷ [];
          })
  unfolding write_media
  write_media_lem p n head s e =
      let s' : GopSender = record s { current_stream = some n } in
      rw (e, write_all_lem n head s', write_all_lem n p.payload s')

  start_gop_lem :
      (c : CodecPacket) (g : MediaPacket) (head : Bytes) (s : GopSender)
      → Media.serialize g.header ≡ ok head
      → start_gop t (ready c g s) ≡ record {
        result = ok tt;
        sender = after_opening (ready c g s);
        effects =
            Effect.opened s.streams
            ∷ Effect.wrote s.streams (opening c g head s)
            ∷ finish_old s.current_stream;
      }
  unfolding start_gop write_opening
  start_gop_lem c g head s e =
      rw (v.opens s.streams, e, write_all_lem s.streams (opening c g head s) _)

  branch_lem :
      (c : CodecPacket) (g p : MediaPacket) (s : GopSender)
      → p.header.is_config ≡ false
      → p.header.is_key ≡ true
      → send t (ready c g s) (AvPacket.media p)
        ≡ and_then (start_gop t (ready c g s)) (write_media t p)
  unfolding send send_media
  branch_lem c g p s no_config key = rw (no_config, key)

  send_key_lem :
      (c : CodecPacket) (g p : MediaPacket) (g_head p_head : Bytes) (s : GopSender)
      → p.header.is_config ≡ false
      → p.header.is_key ≡ true
      → Media.serialize g.header ≡ ok g_head
      → Media.serialize p.header ≡ ok p_head
      → send t (ready c g s) (AvPacket.media p) ≡ record {
        result = ok tt;
        sender = after_opening (ready c g s);
        effects =
            Effect.opened s.streams
              ∷ Effect.wrote s.streams (opening c g g_head s)
              ∷ finish_old s.current_stream
            ++ (Effect.wrote s.streams p_head ∷ Effect.wrote s.streams p.payload ∷ []);
      }
  send_key_lem c g p g_head p_head s no_config key eg ep =
      branch_lem c g p s no_config key
      ∙ ap (λ (x : Sent). and_then x (write_media t p)) (start_gop_lem c g g_head s eg)
      ∙ ap
          (prepended (
            Effect.opened s.streams
            ∷ Effect.wrote s.streams (opening c g g_head s)
            ∷ finish_old s.current_stream))
          (write_media_lem p s.streams p_head (after_opening (ready c g s)) ep)

abbrev pub gop_of_sender : GopSender → Gop
gop_of_sender s = record { id = s.gop_id; codec_gen = s.codec_gen; config_gen = s.config_gen }

-- The numbers of a sender are u32.
pub record IsSender (s : GopSender) : Type 0 where
  pub gop_id_lt : s.gop_id < 2 ^ 32
  pub codec_gen_lt : s.codec_gen < 2 ^ 32
  pub config_gen_lt : s.config_gen < 2 ^ 32

read_ids :
    (s : GopSender) (rest : Bytes) (ends : Bool)
    → IsSender s
    → read_stream_ids (record { input = ids_of s ++ rest; ends = ends })
      ≡ (ok (gop_of_sender s), record { input = rest; ends = ends })
unfolding read_stream_ids
read_ids s rest ends v =
    ap gop_of_ids (read_exact-append (ids_of s) rest (record { input = []; ends = ends }))
    ∙ rw (
      of_be32_lem s.gop_id v.gop_id_lt,
      of_be32_lem s.codec_gen v.codec_gen_lt,
      of_be32_lem s.config_gen v.config_gen_lt,
    )

read_one :
    (p : AvPacket) (bytes rest : Bytes) (ends : Bool)
    → IsInRange p
    → Av.write p ≡ ok bytes
    → Av.read (record { input = bytes ++ rest; ends = ends })
      ≡ (ok (some p), record { input = rest; ends = ends })
read_one p bytes rest ends v w =
    let (bs, made, back) = read-write p v in
    let same : bs ≡ bytes = cc (made, w) in rw same at (back rest ends)

-- What reading three packets gives, where each is there.
read_three :
    (c : CodecPacket) (g p : MediaPacket) (cs gs ps rest : Bytes) (ends : Bool)
    → IsInRange (AvPacket.codec c)
    → IsInRange (AvPacket.media g)
    → IsInRange (AvPacket.media p)
    → Av.write (AvPacket.codec c) ≡ ok cs
    → Av.write (AvPacket.media g) ≡ ok gs
    → Av.write (AvPacket.media p) ≡ ok ps
    → read_packets 3 (record { input = cs ++ (gs ++ (ps ++ rest)); ends = ends }) ≡ (
      ok (AvPacket.codec c ∷ AvPacket.media g ∷ AvPacket.media p ∷ []),
      record { input = rest; ends = ends },
    )
unfolding read_packets
read_three c g p cs gs ps rest ends vc vg vp wc wg wp = rw (
  read_one (AvPacket.codec c) cs (gs ++ (ps ++ rest)) ends vc wc,
  read_one (AvPacket.media g) gs (ps ++ rest) ends vg wg,
  read_one (AvPacket.media p) ps rest ends vp wp,
)

media_bytes :
    (p : MediaPacket)
    → IsInRange (AvPacket.media p)
    → (head : Bytes) × (Media.serialize p.header ≡ ok head)
      × (Av.write (AvPacket.media p) ≡ ok (head ++ p.payload))
unfolding Av.write
media_bytes p v =
    let (bs, made, back) = read-write (AvPacket.media p) v in
    let (head, e, same) = >>=-eq-ok (Media.serialize p.header) (λ h. ok (h ++ p.payload)) made in
    (head, e, rw e)

codec_bytes : (c : CodecPacket) → Av.write (AvPacket.codec c) ≡ ok (Codec.serialize c.header)
unfolding Av.write
codec_bytes c = refl

regroup :
    (ids a b c d e rest : Bytes)
    → (ids ++ a ++ b ++ c) ++ (d ++ (e ++ [])) ++ rest
      ≡ ids ++ (a ++ ((b ++ c) ++ ((d ++ e) ++ rest)))
regroup ids a b c d e rest = simp (append_assoc, append-nil)

-- A key frame opens a stream on which the receiver reads the numbers of its group, and then the codec
-- packet, the config packet and the frame, whatever follows; the sender goes on to the next number.
pub send-read :
    (t : Transport) (c : CodecPacket) (g p : MediaPacket) (s : GopSender) (rest : Bytes)
    (ends : Bool) (v : IsOpen t)
    → IsSender s
    → IsInRange (AvPacket.codec c)
    → IsInRange (AvPacket.media g)
    → IsInRange (AvPacket.media p)
    → p.header.is_config ≡ false
    → p.header.is_key ≡ true
    → (let sent = send t (ready c g s) (AvPacket.media p) in
        (sent.result ≡ ok tt)
        × (sent.sender.gop_id ≡ next_id s.gop_id)
        × ((after : Reader) × (read_stream_ids
                (record { input = written_to s.streams sent.effects ++ rest; ends = ends })
              ≡ (ok (gop_of_sender s), after))
            × (read_packets 3 after ≡ (
              ok (AvPacket.codec c ∷ AvPacket.media g ∷ AvPacket.media p ∷ []),
              record { input = rest; ends = ends },
            ))))
send-read t c g p s rest ends v vs vc vg vp no_config key =
    let (g_head, eg, wg) = media_bytes g vg in
    let (p_head, ep, wp) = media_bytes p vp in
    let sent = send_key_lem t v c g p g_head p_head s no_config key eg ep in
    let cs = Codec.serialize c.header in
    let after : Reader = record {
      input = cs ++ ((g_head ++ g.payload) ++ ((p_head ++ p.payload) ++ rest));
      ends = ends;
    } in
    (
      ap (λ (x : Sent). x.result) sent,
      ap (λ (x : Sent). x.sender.gop_id) sent,
      (
        after,
        rw
            (
              ap (λ (x : Sent). x.effects) sent,
              written_key s.streams s.current_stream (opening c g g_head s) p_head p.payload,
              regroup (ids_of s) cs g_head g.payload p_head p.payload rest,
            )
            (read_ids s after.input ends vs),
        read_three c g p cs (g_head ++ g.payload) (p_head ++ p.payload) rest ends vc vg vp
            (codec_bytes c) wg wp,
      ),
    )
