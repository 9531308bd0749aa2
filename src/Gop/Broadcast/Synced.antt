-- ===== src/Gop/Broadcast/Synced.antt =====
-- video_gopstream.rs: what the receiver's state says of its client, and the messages that open a group or
-- come late.
use plank_kymux.Common.{
  ℕ, ◌≤◌, ◌<◌, ◌≡◌, refl, ap, subst, inl, inr, true, false, Option, none, some, arith, ◌==◌, ltb→lt,
  Bool-cases, Option-cases, ok,
}
use plank_kymux.Av.Packet.{AvPacket}
use plank_kymux.Gop.Receiver.{Gop, RecvMsg, stream_ids, new_packet, start, is_newer, handle}
use plank_kymux.Gop.Broadcast.{Broadcast, IsBroadcast, gop_of, World, initial, step, IsConfigured}

-- The client has the packets of the generations that the receiver counts as given, and those of the
-- current group once they have come.
pub record IsSynced (b : Broadcast) (w : World) : Type 0 where
  pub current : (gop : Gop) → w.receiver.gop ≡ some gop → gop ≡ gop_of b gop.id
  pub codec_given :
      0 < w.receiver.last_codec_gen → w.codec ≡ some (b.codec_of w.receiver.last_codec_gen)
  pub config_given :
      0 < w.receiver.last_config_gen → w.config ≡ some (b.config_of w.receiver.last_config_gen)
  pub codec_of_gop :
      (gop : Gop)
      → w.receiver.gop ≡ some gop
      → 0 < w.arrived
      → w.receiver.last_codec_gen ≡ gop.codec_gen
  pub config_of_gop :
      (gop : Gop)
      → w.receiver.gop ≡ some gop
      → 1 < w.arrived
      → w.receiver.last_config_gen ≡ gop.config_gen
  pub idle :
      w.receiver.gop ≡ none → (w.receiver.last_codec_gen ≡ 0) × (w.receiver.last_config_gen ≡ 0)
  pub codec_le : (gop : Gop) → w.receiver.gop ≡ some gop → w.receiver.last_codec_gen ≤ gop.codec_gen
  pub config_le :
      (gop : Gop) → w.receiver.gop ≡ some gop → w.receiver.last_config_gen ≤ gop.config_gen

-- A message is handled, and what the receiver knows and gives afterwards is as it has to be.
abbrev pub Syncs : Broadcast → World → RecvMsg → Type 0
Syncs b w m =
    (q : World × Option AvPacket) × (step w m ≡ ok q) × IsSynced b q.0 × IsConfigured b w m q.0 q.1

module _ (b : Broadcast) (v : IsBroadcast b) where
  pub initial-IsSynced : IsSynced b initial
  unfolding start
  initial-IsSynced = record {
    current = λ gop e. cc e;
    codec_given = λ h. absurd (omega arith);
    config_given = λ h. absurd (omega arith);
    codec_of_gop = λ gop e h. cc e;
    config_of_gop = λ gop e h. cc e;
    idle = λ e. (refl, refl);
    codec_le = λ gop e. cc e;
    config_le = λ gop e. cc e;
  }

  -- The generations given are no newer than those of a newer group.
  newer_lem :
      (w : World) (i : ℕ)
      → IsSynced b w
      → is_newer w.receiver.gop (gop_of b i) ≡ true
      → (w.receiver.last_codec_gen ≤ b.codec_gen i) × (w.receiver.last_config_gen ≤ b.config_gen i)
  newer_lem w i s newer = elim (Option-cases w.receiver.gop) [
    | inl e ↦ (omega (arith, s.idle e), omega (arith, s.idle e))
    | inr (prev, e) ↦
        let lower = ltb→lt prev.id i (rw (e, is_newer) at newer) in
        let known = s.current prev e in
        let codec : prev.codec_gen ≡ b.codec_gen prev.id = ap (λ (g : Gop). g.codec_gen) known in
        let config : prev.config_gen ≡ b.config_gen prev.id =
          ap (λ (g : Gop). g.config_gen) known in
        (
          omega (arith, s.codec_le prev e, codec, v.codec_mono prev.id i (omega arith)),
          omega (arith, s.config_le prev e, config, v.config_mono prev.id i (omega arith)),
        )
  ]

  pub ids_lem : (w : World) (i : ℕ) → IsSynced b w → Syncs b w (stream_ids (gop_of b i))
  unfolding step handle
  ids_lem w i s = elim (Bool-cases (is_newer w.receiver.gop (gop_of b i))) [
    | inl newer ↦
        let w' : World = record w {
          receiver = record w.receiver { gop = some (gop_of b i); reading = some i };
          arrived = 0;
        } in
        (
          (w', none),
          rw newer refl,
          record {
            current = λ gop e. (let same : gop_of b i ≡ gop = cc e in rw (← same) refl);
            codec_given = s.codec_given;
            config_given = s.config_given;
            codec_of_gop = λ gop e h. absurd (omega arith);
            config_of_gop = λ gop e h. absurd (omega arith);
            idle = λ e. cc e;
            codec_le = λ gop e.
                (let same : gop_of b i ≡ gop = cc e in
                  subst (λ (g : Gop). w.receiver.last_codec_gen ≤ g.codec_gen) same
                    (newer_lem w i s newer).0);
            config_le = λ gop e.
                (let same : gop_of b i ≡ gop = cc e in
                  subst (λ (g : Gop). w.receiver.last_config_gen ≤ g.config_gen) same
                    (newer_lem w i s newer).1);
          },
          tt,
        )
    | inr older ↦ ((w, none), rw older refl, s, tt)
  ]

  pub stale_lem :
      (w : World) (p : AvPacket) (id : ℕ) (gop : Gop)
      → IsSynced b w
      → w.receiver.gop ≡ some gop
      → id < gop.id
      → Syncs b w (new_packet p id)
  unfolding step handle
  stale_lem w p id gop s e lower =
      let other : (id == gop.id) ≡ false = ground arith in
      let other' : (gop.id == id) ≡ false = ground arith in
      ((w, none), rw (e, other, other') refl, s, tt)
