-- ===== src/VideoFec/Group/Symbols.antt =====
-- `insert_datagram` of `PendingGroup` in video_unreliable_fec.rs, whatever the symbol is.
-- symbol, whatever the symbol is.
use plank_kymux.Common.{
  ℕ, ◌≡◌, refl, sym, ap, ◌∙◌, subst, inl, inr, false, Option, none, some, arith, if◌then◌else◌,
  Bool-cases, Option-cases, length, get_elem?, remove_at, Safe, Safe-weaken, Safe-bind,
  Safe-guard_then, sum_by-insert_at, sum_by-remove_at, sum_by-set,
}
use plank_kymux.Wire.{Bytes}
use plank_kymux.Fec.{Oti, PayloadId, Raptorq, FecError, max_video_payload}
use plank_kymux.Fec.Decoder
use plank_kymux.Fec.Decoder.{eq_oti, decode}
use plank_kymux.Fec.Decoder.Invariant.{IsDecoder, new-IsDecoder, decode-IsDecoder}
use plank_kymux.Fec.Media.{media_packet}
use plank_kymux.Fec.Media.Safety.{IsMediaOf, media_packet_lem}
use plank_kymux.Fec.Validation.{IsReal, IsValidOti}
use plank_kymux.Video.Search.{Search, found, absent, search}
use plank_kymux.Video.Search.Sorted.{
  found_lem, get_elem?-insert_absent, Increasing-insert_absent, Increasing-set,
  Increasing-remove_at, All-insert_at, All-set, All-remove_at, All-get,
}
use plank_kymux.VideoFec.Segments
use plank_kymux.VideoFec.Segments.{
  DatagramPacket, DatagramSegments, is_some, is_complete, add_packet, assemble,
}
use plank_kymux.VideoFec.Group.{
  PendingGroup, datagram_seq, segments_seq, is_found, contains, prepare_datagram_segments,
  update_segments, insert_symbol, insert_datagram,
}
use plank_kymux.VideoFec.Group.Invariant.{
  charge, IsWaiting, IsGroup, Grows, insert_datagram_packet_lem,
}

not_some {ℓ} : {A : Type ℓ} (o : Option A) → is_some o ≡ false → o ≡ none
not_some none h = refl
not_some (some a) h = cc

module _ {D : Type 0} (R : Raptorq D) where
  abbrev IsFresh : ℕ → Oti → DatagramSegments D → Type 0
  IsFresh k oti s = IsWaiting R s × (s.kypacket_seq ≡ k) × (s.decoder.oti ≡ oti)

  new_segments_lem :
      (k : ℕ) (oti : Oti) (now : ℕ) → Safe IsReal (IsFresh k oti) (Segments.new R k oti now)
  unfolding Segments.new
  new_segments_lem k oti now =
      Safe-bind IsReal _ (IsFresh k oti) (Decoder.new R oti max_video_payload) _
        (new-IsDecoder R oti max_video_payload)
        λ d e v. (record { decoder = v.0; waiting = refl }, refl, v.1)

  add_packet_lem :
      (s : DatagramSegments D) (oti : Oti) (id : PayloadId) (bytes : Bytes)
      → IsWaiting R s
      → Safe IsReal
          (λ s'.
            IsDecoder R max_video_payload s'.decoder
            × (s'.kypacket_seq ≡ s.kypacket_seq)
            × (s'.decoder.oti ≡ s.decoder.oti))
          (add_packet R s oti id bytes)
  unfolding add_packet
  add_packet_lem s oti id bytes v =
      Safe-bind IsReal _ _ (decode R s.decoder oti id bytes) _
        (decode-IsDecoder R max_video_payload s.decoder oti id bytes v.decoder)
        λ q e h. (h.0, refl, h.1)

  assemble_lem :
      (s : DatagramSegments D) (now : ℕ)
      → Safe IsReal
          (λ p. (p.oti ≡ s.decoder.oti) × (p.kypacket_seq ≡ s.kypacket_seq))
          (assemble s now)
  unfolding assemble
  assemble_lem s now = elim (Option-cases s.assembled) [
    | inl e ↦ rw e refl
    | inr (bytes, e) ↦ rw e (
        Safe-bind IsReal (IsMediaOf (length bytes)) _ (media_packet bytes) _
          (media_packet_lem bytes) λ p same v. (refl, refl))
  ]

  update_segments_lem :
      (g : PendingGroup D) (i : ℕ) (s s' : DatagramSegments D) (now : ℕ)
      → IsGroup R g
      → get_elem? g.segments i ≡ some s
      → IsDecoder R max_video_payload s'.decoder
      → s'.kypacket_seq ≡ s.kypacket_seq
      → s'.decoder.oti ≡ s.decoder.oti
      → Safe IsReal (Grows R (λ c. 0) g) (update_segments g i s' now)
  unfolding update_segments charge
  update_segments_lem g i s s' now v e good same same_oti = elim (Bool-cases (is_complete s')) [
    | inr more ↦ rw more record {
      group = record {
        config = v.config;
        datagrams = v.datagrams;
        datagrams_sorted = v.datagrams_sorted;
        segments =
            All-set (IsWaiting R) i s' g.segments
              (record { decoder = good; waiting = not_some s'.assembled more }) v.segments;
        segments_sorted = Increasing-set segments_seq i s' s g.segments e same v.segments_sorted;
      };
      same_seq = refl;
      same_config = refl;
      charged = λ c w. omega (
        arith,
        sum_by-set (λ (s : DatagramSegments D). c s.decoder.oti) i s s' g.segments e,
        ap c same_oti,
      );
    }
    | inl whole ↦ rw whole (
        Safe-bind IsReal _ (Grows R (λ c. 0) g) (assemble s' now) _ (assemble_lem s' now)
          λ p built h.
            let rest : PendingGroup D = record g { segments = remove_at i g.segments } in
            let grown =
              insert_datagram_packet_lem R rest p
                (record {
                  config = v.config;
                  datagrams = v.datagrams;
                  datagrams_sorted = v.datagrams_sorted;
                  segments = All-remove_at (IsWaiting R) i g.segments v.segments;
                  segments_sorted =
                      Increasing-remove_at segments_seq i g.segments v.segments_sorted;
                })
                (subst (λ o. IsValidOti o max_video_payload) (sym h.0) good.valid) in
            record {
              group = grown.group;
              same_seq = grown.same_seq;
              same_config = grown.same_config;
              charged = λ c w. omega (
                arith,
                grown.charged c w,
                sum_by-remove_at (λ (s : DatagramSegments D). c s.decoder.oti) i s g.segments e,
                ap c (h.0 ∙ same_oti),
              );
            })
  ]

  insert_symbol_lem :
      (g : PendingGroup D) (i : ℕ) (s : DatagramSegments D) (oti : Oti) (id : PayloadId)
      (bytes : Bytes) (now : ℕ)
      → IsGroup R g
      → get_elem? g.segments i ≡ some s
      → Safe IsReal (Grows R (λ c. 0) g) (insert_symbol R (i, g) oti id bytes now)
  unfolding insert_symbol
  insert_symbol_lem g i s oti id bytes now v e =
      rw (e, insert_symbol)
        (Safe-bind IsReal _ (Grows R (λ c. 0) g) (add_packet R s oti id bytes) _
          (add_packet_lem s oti id bytes (All-get (IsWaiting R) i g.segments s v.segments e))
          λ s' added h. update_segments_lem g i s s' now v e h.0 h.1 h.2)

  prepare_datagram_segments_lem :
      (g : PendingGroup D) (k : ℕ) (oti : Oti) (now : ℕ)
      → IsGroup R g
      → is_found (search datagram_seq k g.datagrams) ≡ false
      → Safe IsReal
          (λ q.
            Grows R (λ c. if contains g k then 0 else c oti) g q.1
            × (s : DatagramSegments D) × (get_elem? q.1.segments q.0 ≡ some s))
          (prepare_datagram_segments R g k oti now)
  unfolding prepare_datagram_segments charge contains
  prepare_datagram_segments_lem g k oti now v no_datagram =
      go (search segments_seq k g.segments) refl
    where
      go :
          (r : Search)
          → search segments_seq k g.segments ≡ r
          → Safe IsReal
              (λ q.
                Grows R (λ c. if contains g k then 0 else c oti) g q.1
                × (s : DatagramSegments D) × (get_elem? q.1.segments q.0 ≡ some s))
              (prepare_datagram_segments R g k oti now)
      go (found i) e =
          rw (e, prepare_datagram_segments)
            (
              record {
                group = v;
                same_seq = refl;
                same_config = refl;
                charged = λ c w. omega arith;
              },
              (found_lem segments_seq k i g.segments e).0,
              (found_lem segments_seq k i g.segments e).1,
            )
      go (absent i) e =
          rw (e, prepare_datagram_segments)
            (Safe-bind IsReal _ _ (Segments.new R k oti now) _ (new_segments_lem k oti now)
              λ s made h. (
                record {
                  group = record {
                    config = v.config;
                    datagrams = v.datagrams;
                    datagrams_sorted = v.datagrams_sorted;
                    segments = All-insert_at (IsWaiting R) i s g.segments h.0 v.segments;
                    segments_sorted =
                        Increasing-insert_absent segments_seq k i s g.segments e h.1
                          v.segments_sorted;
                  };
                  same_seq = refl;
                  same_config = refl;
                  charged = λ c w. rw no_datagram (
                      omega (
                        arith,
                        sum_by-insert_at (λ (s : DatagramSegments D). c s.decoder.oti) i s
                            g.segments,
                        ap c h.2,
                      ));
                },
                s,
                get_elem?-insert_absent segments_seq k i s g.segments e,
              ))

  -- Whatever symbol comes, no index is out of range, no assertion fails, and the group stays in order,
  -- with at most the new object more.
  pub insert_datagram-Grows :
      (g : PendingGroup D) (k : ℕ) (oti : Oti) (id : PayloadId) (bytes : Bytes) (now : ℕ)
      → IsGroup R g
      → Safe IsReal
          (Grows R (λ c. if contains g k then 0 else c oti) g)
          (insert_datagram R g k oti id bytes now)
  unfolding insert_datagram
  insert_datagram-Grows g k oti id bytes now v = go (search datagram_seq k g.datagrams) refl
    where
      go :
          (r : Search)
          → search datagram_seq k g.datagrams ≡ r
          → Safe IsReal
              (Grows R (λ c. if contains g k then 0 else c oti) g)
              (insert_datagram R g k oti id bytes now)
      go (found i) e =
          let (d, at, same) = found_lem datagram_seq k i g.datagrams e in
          rw (e, insert_datagram, at)
            (Safe-guard_then IsReal _ (eq_oti d.oti oti) FecError.oti_changed_completed _ refl
              λ same. record {
                group = v;
                same_seq = refl;
                same_config = refl;
                charged = λ c w. omega arith;
              })
      go (absent i) e =
          rw (e, insert_datagram)
            (Safe-bind IsReal _ _ (prepare_datagram_segments R g k oti now) _
              (prepare_datagram_segments_lem g k oti now v (ap is_found e))
              λ q prepared h.
                Safe-weaken IsReal (Grows R (λ c. 0) q.1) _ (insert_symbol R q oti id bytes now)
                  (insert_symbol_lem q.1 q.0 h.1 oti id bytes now h.0.group h.2)
                  λ g' done grown. record {
                    group = grown.group;
                    same_seq = grown.same_seq ∙ h.0.same_seq;
                    same_config = grown.same_config ∙ h.0.same_config;
                    charged = λ c w. omega (arith, grown.charged c w, h.0.charged c w);
                  })
