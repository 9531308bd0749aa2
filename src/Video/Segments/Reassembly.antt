-- ===== src/Video/Segments/Reassembly.antt =====
-- `DatagramSegments` fed with the datagrams of a packet in some order, and `assemble`.
use plank_kymux.Common.{
  ℕ, zero, suc, ◌-◌, ◌≤◌, ◌<◌, ◌≡◌, refl, ap, ◌∙◌, ◌⊎◌, inl, inr, Bool, true, false, ◌||◌, Option,
  none, some, List, [], ◌∷◌, ◌++◌, arith, leb, ◌==◌, ==_iff, Bool-cases, Option-cases, Result, ok,
  ◌>>=◌, >>=-eq-ok, length, get_elem?, set, take, drop, length-append, take-length_append,
  drop-length_append,
}
use plank_kymux.Wire.{Bytes, IoError}
use plank_kymux.Av.Packet.{AvPacket, MediaPacket, MediaPacketHeader, serialized_size}
use plank_kymux.Av.Headers.{IsMediaHeader, media_deserialize-serialize}
use plank_kymux.Av.Media
use plank_kymux.Video.Sender.Pieces.{concat}
use plank_kymux.Video.Sender.{wire}
use plank_kymux.Video.Segments.{
  DatagramSegments, new, is_complete, is_some, slot, set_segment, assemble,
}
use plank_kymux.Video.Segments.Slots.{count_some, Agree, merge-full}
use plank_kymux.Video.Segments.Partial.{IsPartial, new-IsPartial, is_last, Takes, set_segment-Takes}

-- A segment list is complete exactly when it has every piece.
full_count :
    (ps : List Bytes) (s : DatagramSegments)
    → IsPartial ps s
    → is_complete s ≡ true
    → count_some s.segments ≡ length ps
full_count ps s v c = ground (arith, v.count, v.total)

count-all :
    (ps : List Bytes) (xs : List (Option Bytes))
    → Agree ps xs
    → ((j : ℕ) → j < length ps → is_some (slot xs j) ≡ true)
    → count_some xs ≡ length ps
count-all [] [] a h = refl
count-all [] (x ∷ xs) a h = absurd a
count-all (p ∷ ps) [] a h = cc (h 0 (omega arith))
count-all (p ∷ ps) (none ∷ xs) a h = cc (h 0 (omega arith))
count-all (p ∷ ps) (some q ∷ xs) a h = ap suc (count-all ps xs a.1 λ j l. h (suc j) (omega arith))

-- Once every piece is there the segments are complete.
pub complete_of_all :
    (ps : List Bytes) (s : DatagramSegments)
    → 0 < length ps
    → IsPartial ps s
    → ((j : ℕ) → j < length ps → is_some (slot s.segments j) ≡ true)
    → is_complete s ≡ true
complete_of_all ps s pos v h =
    let full = count-all ps s.segments v.agree h in
    let last = h (length ps - 1) (omega arith) in ground (arith, v.count, v.total)

serialize_lem :
    (h : MediaPacketHeader) (bs : Bytes)
    → Media.serialize h ≡ ok bs
    → IsMediaHeader h
    → (length bs ≡ serialized_size) × (Media.deserialize bs ≡ ok h)
serialize_lem h bs e v =
    (unfold Media.serialize in ground arith, rw e at (media_deserialize-serialize h v))

-- A complete kypacket is put together to the media packet whose wire form its pieces are.
pub assemble_lem :
    (ps : List Bytes) (s : DatagramSegments) (p : MediaPacket) (bytes : Bytes) (now : ℕ)
    → IsPartial ps s
    → is_complete s ≡ true
    → IsMediaHeader p.header
    → wire p ≡ ok bytes
    → concat ps ≡ bytes
    → assemble s now
      ≡ ok (record { packet = AvPacket.media p; kypacket_seq = s.kypacket_seq; instant = now })
unfolding assemble wire
assemble_lem ps s p bytes now v c h w e =
    let (hb, x, y) = >>=-eq-ok (Media.serialize p.header) (λ hb. ok (hb ++ p.payload)) w in
    let (size, back) = serialize_lem p.header hb x h in
    let merged =
      merge-full ps s.segments s.total_segment_bytes v.agree (full_count ps s v c) v.bytes in
    let whole : concat ps ≡ hb ++ p.payload = cc (e, y) in
    let head : take serialized_size (hb ++ p.payload) ≡ hb =
      rw size at (take-length_append hb p.payload) in
    let tail : drop serialized_size (hb ++ p.payload) ≡ p.payload =
      rw size at (drop-length_append hb p.payload) in
    let long : leb serialized_size (length (hb ++ p.payload)) ≡ true =
      ground (arith, size, length-append hb p.payload) in
    rw (c, merged, whole, long, head, tail, back)

-- The datagrams of the pieces `ps`, put into the segments in the order of the indices `is`. An index
-- out of range stands for no datagram, and is passed over.
unfoldable pub deliver : List Bytes → List ℕ → DatagramSegments → Result IoError DatagramSegments
deliver ps [] s = ok s
deliver ps (i ∷ is) s = elim (get_elem? ps i) [
  | none ↦ deliver ps is s
  | some p ↦ set_segment s i p (is_last (length ps) i) >>= deliver ps is
]

abbrev pub contains : List ℕ → ℕ → Bool
contains [] j = false
contains (i ∷ is) j = i == j || contains is j

deliver_step :
    (ps : List Bytes) (is : List ℕ) (s s' : DatagramSegments) (i : ℕ) (p : Bytes)
    → get_elem? ps i ≡ some p
    → set_segment s i p (is_last (length ps) i) ≡ ok s'
    → deliver ps (i ∷ is) s ≡ deliver ps is s'
unfolding deliver
deliver_step ps is s s' i p e q = rw (e, deliver, q)

deliver_skip :
    (ps : List Bytes) (is : List ℕ) (s : DatagramSegments) (i : ℕ)
    → get_elem? ps i ≡ none
    → deliver ps (i ∷ is) s ≡ deliver ps is s
unfolding deliver
deliver_skip ps is s i e = rw (e, deliver)

get_elem?-none_le : (ps : List Bytes) (i : ℕ) → get_elem? ps i ≡ none → length ps ≤ i
get_elem?-none_le [] i e = omega arith
get_elem?-none_le (x ∷ ps) zero e = cc
get_elem?-none_le (x ∷ ps) (suc i) e = omega (arith, get_elem?-none_le ps i e)

arrived :
    {ps : List Bytes} (s s' : DatagramSegments) (i j : ℕ) (is : List ℕ)
    → Takes ps s s' i
    → (is_some (slot s.segments j) ≡ true) ⊎ (contains (i ∷ is) j ≡ true)
    → (is_some (slot s'.segments j) ≡ true) ⊎ (contains is j ≡ true)
arrived s s' i j is t (inl h) = inl (t.stays j h)
arrived s s' i j is t (inr h) = elim (Bool-cases (i == j)) [
  | inl e ↦ inl (rw (← (==_iff i j).0 e) t.there)
  | inr e ↦ inr (rw e at h)
]

-- What delivery gives: no panic, and a slot is filled if it was or its index is delivered.
pub deliver_lem :
    (ps : List Bytes) (is : List ℕ) (s : DatagramSegments)
    → IsPartial ps s
    → (s' : DatagramSegments) × (deliver ps is s ≡ ok s')
      × IsPartial ps s'
      × (s'.kypacket_seq ≡ s.kypacket_seq)
      × ((j : ℕ)
          → j < length ps
          → (is_some (slot s.segments j) ≡ true) ⊎ (contains is j ≡ true)
          → is_some (slot s'.segments j) ≡ true)
deliver_lem ps [] s v = (s, unfold deliver in refl, v, refl, λ j l h. ground arith)
deliver_lem ps (i ∷ is) s v = elim (Option-cases (get_elem? ps i)) [
  | inl e ↦
      let (s', run, v', seq, there) = deliver_lem ps is s v in
      (
        s',
        deliver_skip ps is s i e ∙ run,
        v',
        seq,
        λ j l h. there j l (ground (arith, get_elem?-none_le ps i e)),
      )
  | inr (p, e) ↦
      let (s1, set, takes) = set_segment-Takes ps s i p v e in
      let (s', run, v', seq, there) = deliver_lem ps is s1 takes.partial in
      (
        s',
        deliver_step ps is s s1 i p e set ∙ run,
        v',
        seq ∙ takes.same_seq,
        λ j l h. there j l (arrived s s1 i j is takes h),
      )
]

nonempty :
    (ps : List Bytes) (p : MediaPacket) (bytes : Bytes)
    → wire p ≡ ok bytes
    → concat ps ≡ bytes
    → 0 < length ps
unfolding wire Media.serialize
nonempty [] p bytes w e = ground arith
nonempty (x ∷ ps) p bytes w e = omega arith

-- A packet is put together from its datagrams in whatever order they come, and however often, as
-- long as each has come once.
pub reassembly :
    (ps : List Bytes) (p : MediaPacket) (bytes : Bytes) (is : List ℕ) (k now : ℕ)
    → IsMediaHeader p.header
    → wire p ≡ ok bytes
    → concat ps ≡ bytes
    → ((j : ℕ) → j < length ps → contains is j ≡ true)
    → (deliver ps is (new k) >>= λ s. assemble s now)
      ≡ ok (record { packet = AvPacket.media p; kypacket_seq = k; instant = now })
reassembly ps p bytes is k now h w e all =
    let (s, run, v, seq, there) = deliver_lem ps is (new k) (new-IsPartial ps k) in
    let done =
      complete_of_all ps s (nonempty ps p bytes w e) v (λ j l. there j l (inr (all j l))) in
    rw (run, assemble_lem ps s p bytes now v done h w e, seq) (unfold new in refl)
