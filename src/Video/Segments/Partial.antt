-- ===== src/Video/Segments/Partial.antt =====
-- What a `DatagramSegments` holds of the pieces of its packet, and `set_segment`.
use plank_kymux.Common.{
  ℕ, zero, suc, ◌+◌, ◌-◌, ◌<◌, ◌≡◌, refl, sym, ap, ◌∙◌, inl, inr, Bool, true, false, ◌&&◌, Option,
  none, some, List, [], ◌∷◌, arith, ◌==◌, if◌then◌else◌, ==_iff, Bool-cases, Option-cases, ok,
  length, get_elem?, set,
}
use plank_kymux.Wire.{Bytes}
use plank_kymux.Video.Segments.{DatagramSegments, new, resized, is_some, slot, set_segment}
use plank_kymux.Video.Segments.Slots.{
  count_some, count_bytes, Agree, Agree-resized, count-resized, slot-resized, length-resized,
  Agree-set, count-set, slot-set_self, slot-set_ne,
}

-- The last piece has set the total, and no other.
abbrev pub total_of : ℕ → List (Option Bytes) → Option ℕ
total_of n xs = if is_some (slot xs (n - 1)) then some n else none

-- `s` holds some of the pieces `ps`, in their places, and its counters say so.
pub record IsPartial (ps : List Bytes) (s : DatagramSegments) : Type 0 where
  pub agree : Agree ps s.segments
  pub count : s.segments_count ≡ count_some s.segments
  pub bytes : s.total_segment_bytes ≡ count_bytes s.segments
  pub total : s.total_segments ≡ total_of (length ps) s.segments

pub new-IsPartial : (ps : List Bytes) (k : ℕ) → IsPartial ps (new k)
unfolding new
new-IsPartial ps k = record { agree = tt; count = refl; bytes = refl; total = refl }

-- The flag that the sender puts on piece `i` of `n`.
abbrev pub is_last : ℕ → ℕ → Bool
is_last n i = i + 1 == n

get_elem?_lt : (ps : List Bytes) (i : ℕ) (p : Bytes) → get_elem? ps i ≡ some p → i < length ps
get_elem?_lt [] i p e = cc
get_elem?_lt (x ∷ ps) zero p e = omega arith
get_elem?_lt (x ∷ ps) (suc i) p e = omega (arith, get_elem?_lt ps i p e)

-- The last slot after a write at `i`.
slot-set_last :
    (n i : ℕ) (xs : List (Option Bytes)) (p : Bytes)
    → i < length xs
    → i < n
    → slot (set xs i (some p)) (n - 1) ≡ (if is_last n i then some p else slot xs (n - 1))
slot-set_last n i xs p h l = elim (Bool-cases (is_last n i)) [
  | inl e ↦
      let same : n - 1 ≡ i = omega (arith, (==_iff _ _).0 e) in
      rw (e, same) (slot-set_self xs i p h)
  | inr e ↦ rw e (slot-set_ne xs i (n - 1) p (λ q. cc (e, (==_iff (i + 1) n).1 (omega arith))))
]

-- What the arrival of piece `i` does to the segments: it never panics, and afterwards `i` is there.
pub record Takes (ps : List Bytes) (s s' : DatagramSegments) (i : ℕ) : Type 0 where
  pub partial : IsPartial ps s'
  pub same_seq : s'.kypacket_seq ≡ s.kypacket_seq
  pub there : is_some (slot s'.segments i) ≡ true
  pub stays : (j : ℕ) → is_some (slot s.segments j) ≡ true → is_some (slot s'.segments j) ≡ true

module _ (ps : List Bytes) (s : DatagramSegments) (i : ℕ) (p : Bytes) (v : IsPartial ps s)
    (e : get_elem? ps i ≡ some p) where
  abbrev n : ℕ
  n = length ps

  abbrev xs : List (Option Bytes)
  xs = resized i s.segments

  in_range : i < n
  in_range = get_elem?_lt ps i p e

  -- A duplicate changes nothing but the length of the vector.
  again : is_some (slot xs i) ≡ true → Takes ps s (record s { segments = xs }) i
  again d = record {
    partial = record {
      agree = Agree-resized ps s.segments i v.agree in_range;
      count = v.count ∙ sym (count-resized ps s.segments i).0;
      bytes = v.bytes ∙ sym (count-resized ps s.segments i).1;
      total = rw (slot-resized ps s.segments i (n - 1)) v.total;
    };
    same_seq = refl;
    there = d;
    stays = λ j h. rw (slot-resized ps s.segments i j) h;
  }

  abbrev filled : DatagramSegments
  filled = record s {
    total_segments = if is_last n i then some (i + 1) else s.total_segments;
    segments = set xs i (some p);
    segments_count = s.segments_count + 1;
    total_segment_bytes = s.total_segment_bytes + length p;
  }

  total_filled : slot xs i ≡ none → filled.total_segments ≡ total_of n filled.segments
  total_filled d =
      let last = slot-set_last n i xs p (length-resized ps s.segments i) in_range in
      elim (Bool-cases (is_last n i)) [
        | inl y ↦ rw (last, y) (ap some ((==_iff (i + 1) n).0 y))
        | inr y ↦ rw (last, y, slot-resized ps s.segments i (n - 1)) v.total
      ]

  fresh : slot xs i ≡ none → Takes ps s filled i
  fresh d = record {
    partial = record {
      agree = Agree-set ps xs i p (Agree-resized ps s.segments i v.agree in_range) e;
      count = omega (
        arith,
        v.count,
        (count-resized ps s.segments i).0,
        (count-set xs i p (length-resized ps s.segments i) d).0,
      );
      bytes = omega (
        arith,
        v.bytes,
        (count-resized ps s.segments i).1,
        (count-set xs i p (length-resized ps s.segments i) d).1,
      );
      total = total_filled d;
    };
    same_seq = refl;
    there = rw (slot-set_self xs i p (length-resized ps s.segments i));
    stays = λ j h. elim (Bool-cases (i == j)) [
      | inl y ↦ rw (← (==_iff i j).0 y, slot-set_self xs i p (length-resized ps s.segments i))
      | inr y ↦
          rw (slot-set_ne xs i j p (λ q. cc (y, (==_iff i j).1 q)), slot-resized ps s.segments i j)
            h
    ];
  }

  -- No end was seen before the last piece.
  no_panic : slot xs i ≡ none → (is_last n i && is_some s.total_segments) ≡ false
  no_panic d = elim (Bool-cases (is_last n i)) [
    | inl y ↦
        let here : n - 1 ≡ i = omega (arith, (==_iff (i + 1) n).0 y) in
        let gone : slot s.segments (n - 1) ≡ none =
          rw here (sym (slot-resized ps s.segments i i) ∙ d) in
        rw (y, v.total, gone)
    | inr y ↦ rw y
  ]

  pub set_segment-Takes :
      (s' : DatagramSegments) × (set_segment s i p (is_last n i) ≡ ok s') × Takes ps s s' i
  unfolding set_segment
  set_segment-Takes = elim (Option-cases (slot xs i)) [
    | inl d ↦ (filled, rw (d, no_panic d), fresh d)
    | inr (b, d) ↦ (record s { segments = xs }, rw d, again (rw d))
  ]
