-- ===== src/Serial/Forward.antt =====
-- `forward` of kymux-types/src/lib.rs, between two byte streams.
use plank_kymux.Common.{
  ℕ, zero, suc, ◌<◌, ◌≡◌, refl, ap, ◌∙◌, ◌≢◌, ◌⊎◌, inl, inr, true, Option, none, some, List, [],
  ◌∷◌, ◌++◌, arith, Result, ok, err, panic, length, All,
}
use mathlib.Core.List.{append_assoc, append-nil}
use plank_kymux.Wire.{Bytes, IoError, Reader}
use plank_kymux.Serial.{
  Serializable, IsFaithful, ForwardError, recv_failed, out_of_fuel, send, recv, and_then, forward,
  send_all,
}

module _ {A : Type 0} (s : Serializable A) {InRange : A → Type 0} (f : IsFaithful s InRange) where
  Split-read : (r : Reader) → Type 0
  Split-read r =
      ((a : A) × (r' : Reader) × (s.read r ≡ (ok (some a), r')))
      ⊎ ((r' : Reader) × (s.read r ≡ (ok none, r')))
      ⊎ ((e : IoError) × (r' : Reader) × (s.read r ≡ (err e, r')))
      ⊎ ((r' : Reader) × (s.read r ≡ (panic, r')))

  split-read : (r : Reader) (p : Result IoError (Option A) × Reader) → s.read r ≡ p → Split-read r
  unfolding Split-read
  split-read r (ok (some a), r') e = inl (a, r', e)
  split-read r (ok none, r') e = inr (inl (r', e))
  split-read r (err x, r') e = inr (inr (inl (x, r', e)))
  split-read r (panic, r') e = inr (inr (inr (r', e)))

  forward-some :
      (fuel : ℕ) (r r' : Reader) (a : A) (out : Bytes)
      → s.read r ≡ (ok (some a), r')
      → forward s (suc fuel) r out ≡ and_then s (send s a out) out (forward s fuel r')
  unfolding forward recv
  forward-some fuel r r' a out e =
      rw (e, forward)
        (ap
          (λ (p : Result IoError (Option A) × Reader).
            and_then s (send s a out) out (forward s fuel p.1))
          e)

  forward-none :
      (fuel : ℕ) (r : Reader) (out : Bytes)
      → (s.read r).0 ≡ ok none
      → forward s (suc fuel) r out ≡ (ok tt, out)
  unfolding forward
  forward-none fuel r out e = rw (e, forward)

  forward-err :
      (fuel : ℕ) (r : Reader) (out : Bytes) (x : IoError)
      → (s.read r).0 ≡ err x
      → forward s (suc fuel) r out ≡ (err (recv_failed x), out)
  unfolding forward
  forward-err fuel r out x e = rw (e, forward)

  send-ne-out_of_fuel : (a : A) (out : Bytes) → send s a out ≢ err out_of_fuel
  unfolding send
  send-ne-out_of_fuel a out = ground arith

  and_then-ne-out_of_fuel :
      (m : Result ForwardError Bytes) (out : Bytes)
      (next : Bytes → Result ForwardError (Unit {0}) × Bytes)
      → m ≢ err out_of_fuel
      → ((b : Bytes) → (next b).0 ≢ err out_of_fuel)
      → (and_then s m out next).0 ≢ err out_of_fuel
  and_then-ne-out_of_fuel (ok b) out next h g = g b
  and_then-ne-out_of_fuel (err e) out next h g = λ q. h (cc q)
  and_then-ne-out_of_fuel panic out next h g = λ q. cc

  -- The loop ends: more rounds than there are bytes are enough for any input.
  pub forward-ne-out_of_fuel :
      (fuel : ℕ) (r : Reader) (out : Bytes)
      → length r.input < fuel
      → (forward s fuel r out).0 ≢ err out_of_fuel
  unfolding forward Split-read
  forward-ne-out_of_fuel zero r out h = absurd (omega arith)
  forward-ne-out_of_fuel (suc fuel) r out h = elim (split-read r (s.read r) refl) [
    | inl (a, r', e) ↦ rw (forward-some fuel r r' a out e) (
        and_then-ne-out_of_fuel (send s a out) out _ (send-ne-out_of_fuel a out)
          λ b. forward-ne-out_of_fuel fuel r' b (omega (arith, f.progress r r' a e)))
    | inr (inl (r', e)) ↦ rw (e, forward) (λ q. cc)
    | inr (inr (inl (x, r', e))) ↦ rw (e, forward) (λ q. cc)
    | inr (inr (inr (r', e))) ↦ rw (e, forward) (λ q. cc)
  ]

  -- The bytes of a list of packets in range.
  encode : (ps : List A) → All InRange ps → Bytes
  encode [] v = []
  encode (a ∷ ps) (h, v) = (f.read-write a h).0 ++ encode ps v

  send_all-encode :
      (ps : List A) (out : Bytes) (v : All InRange ps) → send_all s ps out ≡ ok (out ++ encode ps v)
  unfolding send_all send encode
  send_all-encode [] out v = rw append-nil
  send_all-encode (a ∷ ps) out (h, v) =
      let (bs, w, _) = f.read-write a h in
      rw (w, send_all-encode ps (out ++ bs) v) (ap ok (append_assoc out bs (encode ps v)))

  forward-encode :
      (last : Bytes → Result ForwardError (Unit {0}) × Bytes)
      → ((fuel : ℕ) (out : Bytes)
          → forward s (suc fuel) (record { input = []; ends = true }) out ≡ last out)
      → (ps : List A) (out : Bytes) (fuel : ℕ) (v : All InRange ps) → length (encode ps v) < fuel
      → forward s fuel (record { input = encode ps v; ends = true }) out ≡ last (out ++ encode ps v)
  unfolding send encode
  forward-encode last finish ps out zero v h = absurd (omega arith)
  forward-encode last finish [] out (suc fuel) v h = rw append-nil (finish fuel out)
  forward-encode last finish (a ∷ ps) out (suc fuel) (h, v) l =
      let (bs, w, r) = f.read-write a h in
      let e = r (encode ps v) true in
      rw (forward-some fuel _ _ a out e, w)
        (forward-encode last finish ps (out ++ bs) fuel v (omega (arith, f.progress _ _ a e))
          ∙ ap last (append_assoc out bs (encode ps v)))

  -- A stream of packets in range is passed on byte for byte, and the loop ends with `Ok`.
  pub forward-send_all :
      (ps : List A) (bs out : Bytes) (fuel : ℕ)
      → (s.read (record { input = []; ends = true })).0 ≡ ok none
      → All InRange ps
      → send_all s ps [] ≡ ok bs
      → length bs < fuel
      → forward s fuel (record { input = bs; ends = true }) out ≡ (ok tt, out ++ bs)
  forward-send_all ps bs out fuel end v e h =
      let same : encode ps v ≡ bs = cc (send_all-encode ps [] v) in
      rw same at (
        forward-encode (λ o. (ok tt, o)) (λ fuel' out'. forward-none fuel' _ out' end) ps out fuel v
          (rw same h))

  -- Where a read at the end of a stream of packets in range fails, the loop ends with that error, and
  -- every packet has been passed on byte for byte.
  pub forward-send_all_err :
      (ps : List A) (bs out : Bytes) (fuel : ℕ) (x : IoError)
      → (s.read (record { input = []; ends = true })).0 ≡ err x
      → All InRange ps
      → send_all s ps [] ≡ ok bs
      → length bs < fuel
      → forward s fuel (record { input = bs; ends = true }) out ≡ (err (recv_failed x), out ++ bs)
  forward-send_all_err ps bs out fuel x end v e h =
      let same : encode ps v ≡ bs = cc (send_all-encode ps [] v) in
      rw same at (
        forward-encode (λ o. (err (recv_failed x), o))
          (λ fuel' out'. forward-err fuel' _ out' x end) ps out fuel v (rw same h))
