-- ===== src/Gop/Broadcast/Packets.antt =====
-- video_gopstream.rs: a packet of the group that is read.
use plank_kymux.Video.Search.Sorted.{All-get}
use plank_kymux.Common.{
  ℕ, zero, suc, ◌+◌, ◌≤◌, ◌<◌, ◌≡◌, refl, sym, ap, ◌∙◌, inl, inr, true, false, none, some, arith,
  ◌==◌, ==_iff, Bool-cases, Option-cases, ok, ◌>>=◌, get_elem?,
}
use plank_kymux.Av.Packet.{AvPacket, MediaPacket}
use plank_kymux.Gop.Receiver.{new_packet, take_packet, handle}
use plank_kymux.Gop.Broadcast.{Broadcast, IsBroadcast, gop_of, packet_at, World, given, step}
use plank_kymux.Gop.Broadcast.Synced.{IsSynced, Syncs}

module _ (b : Broadcast) (v : IsBroadcast b) where
  fresh_gen : (last gen : ℕ) → last ≤ gen → (gen == last) ≡ false → last < gen
  fresh_gen last gen le other = ground arith

  itself : (n : ℕ) → (n == n) ≡ true
  itself n = (==_iff n n).1 refl

  -- The packet goes to the current group.
  on_gop :
      (w : World) (p : AvPacket) (id : ℕ)
      → w.receiver.gop ≡ some (gop_of b id)
      → step w (new_packet p id) ≡ (
          take_packet w.receiver (gop_of b id) p >>= λ q.
          ok (given (record w { receiver = q.0; arrived = w.arrived + 1 }) q.1, q.1))
  unfolding step handle
  on_gop w p id e = rw (e, itself id)

  codec_lem :
      (w : World) (id : ℕ)
      → IsSynced b w
      → w.receiver.gop ≡ some (gop_of b id)
      → w.arrived ≡ 0
      → Syncs b w (new_packet (AvPacket.codec (b.codec_of (b.codec_gen id))) id)
  unfolding take_packet
  codec_lem w id s e none_yet = elim (Bool-cases (b.codec_gen id == w.receiver.last_codec_gen)) [
    | inl known ↦
        let same : b.codec_gen id ≡ w.receiver.last_codec_gen = (==_iff _ _).0 known in
        (
          (record w { arrived = w.arrived + 1 }, none),
          on_gop w _ id e ∙ rw known refl,
          record {
            current = s.current;
            codec_given = s.codec_given;
            config_given = s.config_given;
            codec_of_gop = λ gop at h. cc (at, e, same);
            config_of_gop = λ gop at h. absurd (omega arith);
            idle = s.idle;
            codec_le = s.codec_le;
            config_le = s.config_le;
          },
          tt,
        )
    | inr unknown ↦
        let w' : World = record w {
          receiver = record w.receiver { last_codec_gen = b.codec_gen id };
          arrived = w.arrived + 1;
          codec = some (b.codec_of (b.codec_gen id));
        } in
        (
          (w', some (AvPacket.codec (b.codec_of (b.codec_gen id)))),
          on_gop w _ id e ∙ rw unknown refl,
          record {
            current = s.current;
            codec_given = λ h. refl;
            config_given = s.config_given;
            codec_of_gop = λ gop at h. cc (at, e);
            config_of_gop = λ gop at h. absurd (omega arith);
            idle = λ at. cc (at, e);
            codec_le =
                λ gop at. (let known : b.codec_gen id ≡ gop.codec_gen = cc (at, e) in omega arith);
            config_le = s.config_le;
          },
          fresh_gen w.receiver.last_codec_gen (b.codec_gen id) (s.codec_le (gop_of b id) e) unknown,
        )
  ]

  config_lem :
      (w : World) (id : ℕ)
      → IsSynced b w
      → w.receiver.gop ≡ some (gop_of b id)
      → w.arrived ≡ 1
      → Syncs b w (new_packet (AvPacket.media (b.config_of (b.config_gen id))) id)
  unfolding take_packet
  config_lem w id s e one =
      let flag = v.is_config (b.config_gen id) in
      elim (Bool-cases (b.config_gen id == w.receiver.last_config_gen)) [
        | inl known ↦
            let same : b.config_gen id ≡ w.receiver.last_config_gen = (==_iff _ _).0 known in
            (
              (record w { arrived = w.arrived + 1 }, none),
              on_gop w _ id e ∙ rw (flag, known) refl,
              record {
                current = s.current;
                codec_given = s.codec_given;
                config_given = s.config_given;
                codec_of_gop = λ gop at h. s.codec_of_gop gop at (omega arith);
                config_of_gop = λ gop at h. cc (at, e, same);
                idle = s.idle;
                codec_le = s.codec_le;
                config_le = s.config_le;
              },
              tt,
            )
        | inr unknown ↦
            let w' : World = record w {
              receiver = record w.receiver { last_config_gen = b.config_gen id };
              arrived = w.arrived + 1;
              config = some (b.config_of (b.config_gen id));
            } in
            (
              (w', some (AvPacket.media (b.config_of (b.config_gen id)))),
              on_gop w _ id e ∙ rw (flag, unknown) refl,
              record {
                current = s.current;
                codec_given = s.codec_given;
                config_given = λ h. refl;
                codec_of_gop = λ gop at h. s.codec_of_gop gop at (omega arith);
                config_of_gop = λ gop at h. cc (at, e);
                idle = λ at. cc (at, e);
                codec_le = s.codec_le;
                config_le = λ gop at.
                    (let known : b.config_gen id ≡ gop.config_gen = cc (at, e) in omega arith);
              },
              rw flag (
                  fresh_gen w.receiver.last_config_gen (b.config_gen id)
                    (s.config_le (gop_of b id) e) unknown),
            )
      ]

  frame_lem :
      (w : World) (id : ℕ) (p : MediaPacket)
      → IsSynced b w
      → w.receiver.gop ≡ some (gop_of b id)
      → 1 < w.arrived
      → packet_at b id w.arrived ≡ some (AvPacket.media p)
      → p.header.is_config ≡ false
      → Syncs b w (new_packet (AvPacket.media p) id)
  unfolding take_packet
  frame_lem w id p s e later here frame =
      let codec = s.codec_of_gop (gop_of b id) e (omega arith) in
      let config = s.config_of_gop (gop_of b id) e later in
      (
        (record w { arrived = w.arrived + 1 }, some (AvPacket.media p)),
        on_gop w _ id e ∙ rw frame refl,
        record {
          current = s.current;
          codec_given = s.codec_given;
          config_given = s.config_given;
          codec_of_gop = λ gop at h. s.codec_of_gop gop at (omega arith);
          config_of_gop = λ gop at h. s.config_of_gop gop at later;
          idle = s.idle;
          codec_le = s.codec_le;
          config_le = s.config_le;
        },
        simp frame (
          id,
          refl,
          e,
          e,
          here,
          s.codec_given (omega (arith, codec, v.codec_pos id))
              ∙ ap (λ (n : ℕ). some (b.codec_of n)) codec,
          s.config_given (omega (arith, config, v.config_pos id))
              ∙ ap (λ (n : ℕ). some (b.config_of n)) config,
        ),
      )

  pub fresh_lem :
      (w : World) (p : AvPacket) (id n : ℕ)
      → IsSynced b w
      → w.receiver.gop ≡ some (gop_of b id)
      → w.arrived ≡ n
      → packet_at b id n ≡ some p
      → Syncs b w (new_packet p id)
  fresh_lem w p id zero s e now at =
      let same : AvPacket.codec (b.codec_of (b.codec_gen id)) ≡ p = cc in
      rw (← same) (codec_lem w id s e now)
  fresh_lem w p id (suc zero) s e now at =
      let same : AvPacket.media (b.config_of (b.config_gen id)) ≡ p = cc in
      rw (← same) (config_lem w id s e now)
  fresh_lem w p id (suc (suc n)) s e now at = elim (Option-cases (get_elem? (b.frames id) n)) [
    | inl e2 ↦ cc (rw (e2, packet_at) at at)
    | inr (f, e2) ↦
        let same : AvPacket.media f ≡ p = cc (rw (e2, packet_at) at at) in
        rw (← same) (
          frame_lem w id f s e (omega arith)
            (ap (packet_at b id) now ∙ at ∙ ap (λ x. some x) (sym same))
            (All-get (λ p. p.header.is_config ≡ false) n (b.frames id) f (v.is_frame id) e2))
  ]
