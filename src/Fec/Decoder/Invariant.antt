-- ===== src/Fec/Decoder/Invariant.antt =====
-- The invariant of `ObjectDecoder`, whatever symbols a peer sends.
use plank_kymux.Common.{
  ℕ, zero, suc, ◌+◌, ◌≤◌, ◌<◌, ◌≡◌, refl, sym, ap, ◌∙◌, subst, ◌≢◌, ◌⊎◌, inl, inr, true, false,
  some, List, [], ◌∷◌, arith, ltb, ◌==◌, if◌then◌else◌, ==_iff, Bool-cases, length, get_elem?, set,
  replicate, length-replicate, length-set, Safe, Safe-bind, Safe-guard_then,
}
use plank_kymux.Wire.{Bytes}
use plank_kymux.Fec.{Oti, PayloadId, Raptorq, FecError, validate_oti, validate_symbol}
use plank_kymux.Fec.Validation.{IsReal, IsValidOti, validate_oti-IsValidOti, validate_symbol_lem}
use plank_kymux.Fec.Decoder.{ObjectDecoder, eq_oti, has_key, new, symbol_limit, take_symbol, decode}

abbrev pub sum : List ℕ → ℕ
sum [] = 0
sum (n ∷ ns) = n + sum ns

-- No key twice.
abbrev pub IsDistinct : List (ℕ × ℕ) → Type 0
IsDistinct [] = Unit {0}
IsDistinct ((b, e) ∷ keys) = (has_key b e keys ≡ false) × IsDistinct keys

-- How many of the symbols are of a block.
abbrev pub symbols_of : ℕ → List (ℕ × ℕ) → ℕ
symbols_of block [] = 0
symbols_of block ((b, e) ∷ keys) =
    if b == block then suc (symbols_of block keys) else symbols_of block keys

eq_oti_blocks : (a b : Oti) → eq_oti a b ≡ true → a.source_blocks ≡ b.source_blocks
eq_oti_blocks a b h = ground arith

get_elem?-lt :
    {A : Type 0} (xs : List A) (i : ℕ) → i < length xs → (a : A) × (get_elem? xs i ≡ some a)
get_elem?-lt [] i h = absurd (omega arith)
get_elem?-lt (x ∷ xs) zero h = (x, refl)
get_elem?-lt (x ∷ xs) (suc i) h = get_elem?-lt xs i (omega arith)

get_elem?-set :
    {A : Type 0} (xs : List A) (i j : ℕ) (v c : A)
    → get_elem? (set xs i v) j ≡ some c
    → ((i ≡ j) × (v ≡ c)) ⊎ ((i ≢ j) × (get_elem? xs j ≡ some c))
get_elem?-set [] i j v c h = cc
get_elem?-set (x ∷ xs) zero zero v c h = inl (refl, cc)
get_elem?-set (x ∷ xs) zero (suc j) v c h = inr (λ e. absurd (omega arith), h)
get_elem?-set (x ∷ xs) (suc i) zero v c h = inr (λ e. absurd (omega arith), h)
get_elem?-set (x ∷ xs) (suc i) (suc j) v c h = elim (get_elem?-set xs i j v c h) [
  | inl (e, s) ↦ inl (ap suc e, s)
  | inr (other, e) ↦ inr (λ q. other (omega arith), e)
]

symbols_of-own :
    (b e i : ℕ) (keys : List (ℕ × ℕ))
    → b ≡ i
    → symbols_of i ((b, e) ∷ keys) ≡ suc (symbols_of i keys)
symbols_of-own b e i keys same = rw ((==_iff b i).1 same)

symbols_of-other :
    (b e i : ℕ) (keys : List (ℕ × ℕ)) → b ≢ i → symbols_of i ((b, e) ∷ keys) ≡ symbols_of i keys
symbols_of-other b e i keys other = ground arith

sum-set : (xs : List ℕ) (i c : ℕ) → get_elem? xs i ≡ some c → sum (set xs i (c + 1)) ≡ suc (sum xs)
sum-set [] i c h = cc
sum-set (x ∷ xs) zero c h = let same : x ≡ c = cc in omega arith
sum-set (x ∷ xs) (suc i) c h = omega (arith, sum-set xs i c h)

sum-replicate : (n : ℕ) → sum (replicate n 0) ≡ 0
sum-replicate zero = refl
sum-replicate (suc n) = omega (arith, sum-replicate n)

get_elem?-replicate : (n i c : ℕ) → get_elem? (replicate n 0) i ≡ some c → c ≡ 0
get_elem?-replicate zero i c h = cc
get_elem?-replicate (suc n) zero c h = cc
get_elem?-replicate (suc n) (suc i) c h = get_elem?-replicate n i c h

module _ {D : Type 0} (R : Raptorq D) where
  -- A counter for each block, which says how many distinct symbols of that block there are so far,
  -- within the limit of the block; there are no others.
  pub record IsDecoder (max_payload : ℕ) (d : ObjectDecoder D) : Type 0 where
    pub valid : IsValidOti d.oti max_payload
    pub blocks : length d.per_block ≡ d.oti.source_blocks
    pub limited : (i c : ℕ) → get_elem? d.per_block i ≡ some c → c ≤ symbol_limit R d.oti i
    pub counted_of_block :
        (i c : ℕ) → get_elem? d.per_block i ≡ some c → symbols_of i d.received ≡ c
    pub within : (i : ℕ) → symbols_of i d.received ≤ symbol_limit R d.oti i
    pub counted : sum d.per_block ≡ length d.received
    pub distinct : IsDistinct d.received
    pub sources_le : d.received_sources ≤ length d.received

  -- A decoder is made only of parameters for which RaptorQ is defined.
  pub new-IsDecoder :
      (oti : Oti) (max_payload : ℕ)
      → Safe IsReal (λ d. IsDecoder max_payload d × (d.oti ≡ oti)) (new R oti max_payload)
  unfolding new
  new-IsDecoder oti m =
      Safe-bind IsReal _ _ (validate_oti oti m) _ (validate_oti-IsValidOti oti m) λ u e valid. (
        record {
          valid = valid;
          blocks = length-replicate oti.source_blocks 0;
          limited = λ i c h. omega (arith, get_elem?-replicate oti.source_blocks i c h);
          counted_of_block = λ i c h. sym (get_elem?-replicate oti.source_blocks i c h);
          within = λ i. omega arith;
          counted = sum-replicate oti.source_blocks;
          distinct = tt;
          sources_le = omega arith;
        },
        refl,
      )

  take_symbol-IsDecoder :
      (m : ℕ) (d : ObjectDecoder D) (id : PayloadId) (bytes : Bytes) (count : ℕ)
      → IsDecoder m d
      → get_elem? d.per_block id.source_block_number ≡ some count
      → has_key id.source_block_number id.encoding_symbol_id d.received ≡ false
      → Safe IsReal
          (λ q. IsDecoder m q.1 × (q.1.oti ≡ d.oti))
          (take_symbol R d id bytes (some count))
  unfolding take_symbol
  take_symbol-IsDecoder m d id bytes count v at fresh =
      let block = id.source_block_number in
      Safe-guard_then IsReal _ (ltb count (symbol_limit R d.oti block)) FecError.too_many_symbols _
        refl
        λ below. (
          record {
            valid = v.valid;
            blocks = length-set d.per_block block (count + 1) ∙ v.blocks;
            limited = λ i c h. elim (get_elem?-set d.per_block block i (count + 1) c h) [
              | inl (same, e) ↦ subst (λ k. c ≤ symbol_limit R d.oti k) same (ground arith)
              | inr (_, old) ↦ v.limited i c old
            ];
            counted_of_block = λ i c h. elim (get_elem?-set d.per_block block i (count + 1) c h) [
              | inl (same, e) ↦
                  symbols_of-own block id.encoding_symbol_id i d.received same
                  ∙ omega (
                    arith,
                    e,
                    v.counted_of_block i count
                        (subst (λ k. get_elem? d.per_block k ≡ some count) same at),
                  )
              | inr (other, old) ↦
                  symbols_of-other block id.encoding_symbol_id i d.received other
                  ∙ v.counted_of_block i c old
            ];
            within = λ i. elim (Bool-cases (block == i)) [
              | inl same ↦
                  let e = (==_iff block i).0 same in
                  let own = v.counted_of_block block count at in
                  subst
                    (λ k.
                      symbols_of k ((block, id.encoding_symbol_id) ∷ d.received)
                      ≤ symbol_limit R d.oti k)
                    e
                    (ground (
                      arith,
                      own,
                      symbols_of-own block id.encoding_symbol_id block d.received refl,
                    ))
              | inr other ↦ omega (
                arith,
                v.within i,
                symbols_of-other block id.encoding_symbol_id i d.received
                    (λ e. cc (other, (==_iff block i).1 e)),
              )
            ];
            counted = omega (arith, sum-set d.per_block block count at, v.counted);
            distinct = (fresh, v.distinct);
            sources_le = ground (arith, v.sources_le);
          },
          refl,
        )

  -- Whatever symbol comes, decoding does not panic, and the decoder stays as it has to be: the counter
  -- of each block says how many distinct symbols of that block have come, within the limit of the
  -- block, and there are no other symbols.
  pub decode-IsDecoder :
      (max_payload : ℕ) (d : ObjectDecoder D) (oti : Oti) (id : PayloadId) (bytes : Bytes)
      → IsDecoder max_payload d
      → Safe IsReal (λ q. IsDecoder max_payload q.1 × (q.1.oti ≡ d.oti)) (decode R d oti id bytes)
  unfolding decode
  decode-IsDecoder m d oti id bytes v =
      Safe-guard_then IsReal _ (eq_oti oti d.oti) FecError.oti_changed _ refl λ same.
        Safe-bind IsReal _ _ (validate_symbol oti id (length bytes)) _
          (validate_symbol_lem oti id (length bytes))
          λ u e fits.
            elim (Bool-cases (has_key id.source_block_number id.encoding_symbol_id d.received)) [
              | inl old ↦ rw old (v, refl)
              | inr fresh ↦
                  let (count, at) =
                    get_elem?-lt d.per_block id.source_block_number
                      (omega (arith, eq_oti_blocks oti d.oti same, v.blocks, fits)) in
                  rw (fresh, at) (take_symbol-IsDecoder m d id bytes count v at fresh)
            ]
