-- ===== src/Audio/Receiver/Samples.antt =====
-- The samples that audio_unreliable.rs gives its client: with the holes, the client's clock goes on.
use plank_kymux.Common.{
  ℕ, ◌+◌, ◌-◌, ◌*◌, ◌^◌, ◌≤◌, ◌<◌, ◌≡◌, refl, ap, inl, inr, List, [], ◌∷◌, ◌++◌, arith, ltb,
  Bool-cases,
}
use plank_kymux.Av.Packet.{AvPacket}
use plank_kymux.Audio.Receiver.{Receiver, give}

-- A packet lasts `frame_size` samples, and a hole as many as it says.
unfoldable pub duration : ℕ → List AvPacket → ℕ
duration frame_size [] = 0
duration frame_size (AvPacket.hole h ∷ ps) = h.header.missing_audio_samples + duration frame_size ps
duration frame_size (AvPacket.media p ∷ ps) = frame_size + duration frame_size ps
duration frame_size (AvPacket.codec p ∷ ps) = duration frame_size ps

-- Numbered packets, given one after the other.
unfoldable pub give_all : Receiver → List (ℕ × AvPacket) → ℕ → Receiver × List AvPacket
give_all r [] frame_size = (r, [])
give_all r ((k, p) ∷ kps) frame_size =
    let (r', out) = give r k p frame_size in
    let (last, outs) = give_all r' kps frame_size in (last, out ++ outs)

abbrev pub IsMedia : AvPacket → Type 0
IsMedia (AvPacket.media p) = Unit {0}
IsMedia _ = ⊥

-- Media packets in order, from number `next` on, where no gap is longer than a hole can say.
abbrev pub IsInOrder : ℕ → ℕ → List (ℕ × AvPacket) → Type 0
IsInOrder frame_size next [] = Unit {0}
IsInOrder frame_size next ((k, p) ∷ kps) =
    (next ≤ k) × ((k - next) * frame_size < 2 ^ 32) × IsMedia p × IsInOrder frame_size (k + 1) kps

duration-append :
    (frame_size : ℕ) (ps qs : List AvPacket)
    → duration frame_size (ps ++ qs) ≡ duration frame_size ps + duration frame_size qs
unfolding duration
duration-append f [] qs = omega arith
duration-append f (AvPacket.hole h ∷ ps) qs = omega (arith, duration-append f ps qs)
duration-append f (AvPacket.media p ∷ ps) qs = omega (arith, duration-append f ps qs)
duration-append f (AvPacket.codec p ∷ ps) qs = omega (arith, duration-append f ps qs)

times_gap : (n k f : ℕ) → n ≤ k → (k - n) * f + n * f ≡ k * f
times_gap n k f h = let e : k - n + n ≡ k = omega arith in omega (arith, ap (λ (t : ℕ). t * f) e)

give_lem :
    (r : Receiver) (k : ℕ) (p : AvPacket) (f : ℕ)
    → r.next_kypacket_seq ≤ k
    → (k - r.next_kypacket_seq) * f < 2 ^ 32
    → IsMedia p
    → ((give r k p f).0.next_kypacket_seq ≡ k + 1)
      × (duration f (give r k p f).1 ≡ (k - r.next_kypacket_seq) * f + f)
unfolding give duration
give_lem r k (AvPacket.media p) f le small m = elim (Bool-cases (ltb r.next_kypacket_seq k)) [
  | inl gap ↦ rw gap (refl, omega arith)
  | inr no_gap ↦
      let none_missing : k - r.next_kypacket_seq ≡ 0 = ground arith in
      rw (no_gap, none_missing) (refl, omega arith)
]
give_lem r k (AvPacket.hole p) f le small m = elim m [ ]
give_lem r k (AvPacket.codec p) f le small m = elim m [ ]

-- The samples of what the client is given, holes included, are those of all the numbers that have
-- passed: none is lost or doubled.
pub duration-give_all :
    (r : Receiver) (kps : List (ℕ × AvPacket)) (frame_size : ℕ)
    → IsInOrder frame_size r.next_kypacket_seq kps
    → (let q = give_all r kps frame_size in
        duration frame_size q.1 + r.next_kypacket_seq * frame_size
        ≡ q.0.next_kypacket_seq * frame_size)
unfolding give_all duration
duration-give_all r [] f v = omega arith
duration-give_all r ((k, p) ∷ kps) f (le, small, m, v) =
    let (next, lasts) = give_lem r k p f le small m in
    let r' = (give r k p f).0 in
    let rest = duration-give_all r' kps f (rw next v) in
    omega (
      arith,
      lasts,
      rest,
      ap (λ (n : ℕ). n * f) next,
      times_gap r.next_kypacket_seq k f le,
      duration-append f (give r k p f).1 (give_all r' kps f).1,
    )
