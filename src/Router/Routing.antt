-- ===== src/Router/Routing.antt =====
-- router.rs: what the sender writes against the accept loops, and registration against its end.
use plank_kymux.Common.{
  ℕ, ◌^◌, ◌<◌, ◌≡◌, refl, ap, ◌∙◌, subst, inl, inr, Bool, true, false, not, [], ◌∷◌, ◌++◌, arith,
  leb, ◌==◌, if◌then◌else◌, Bool-cases, Result, ok, err, ◌>>=◌, length, member,
}
use plank_kymux.Wire.{Bytes, be16, Reader}
use plank_kymux.Wire.Ints.{of_be16_lem, read_exact-append}
use plank_kymux.Router.{
  ClientMap, RouterError, Delivery, register, unregister, without, write_endpoint_id, id_of,
  read_endpoint_id, route, accept_channel, recv_channel_datagram,
}

id_of-be16 : (id : ℕ) (rest : Bytes) → id < 2 ^ 16 → id_of (be16 id ++ rest) ≡ id
id_of-be16 id rest h = of_be16_lem id h

-- What becomes of a datagram that begins with an endpoint id as its sender writes it: dropped, without
-- an error, if the id is not registered, whether or not its channel is open; otherwise handed whole to
-- that endpoint if its channel is open, and an error if not.
pub recv_channel_datagram-write :
    (clients : ClientMap) (is_open : ℕ → Bool) (id : ℕ) (rest : Bytes)
    → id < 2 ^ 16
    → recv_channel_datagram clients is_open (write_endpoint_id id ++ rest) ≡ (
        if not (member id clients)
        then ok Delivery.dropped
        else if is_open id
        then ok (Delivery.datagram id (write_endpoint_id id ++ rest))
        else err RouterError.channel_closed)
unfolding recv_channel_datagram
recv_channel_datagram-write clients is_open id rest h = elim (Bool-cases (member id clients)) [
  | inl here ↦ elim (Bool-cases (is_open id)) [
    | inl o ↦ rw (long, of_be16_lem id h, here, o) refl
    | inr o ↦ rw (long, of_be16_lem id h, here, o) refl
  ]
  | inr gone ↦ rw (long, of_be16_lem id h, gone) refl
]
  where
    long : leb 2 (length (write_endpoint_id id ++ rest)) ≡ true
    long = ground arith

read_endpoint_id-write :
    (id : ℕ) (rest : Bytes) (r : Reader)
    → id < 2 ^ 16
    → read_endpoint_id (record r { input = write_endpoint_id id ++ rest })
      ≡ (ok id, record r { input = rest })
unfolding read_endpoint_id
read_endpoint_id-write id rest r h =
    ap (λ got. (got.0 >>= λ buf. ok (id_of buf), got.1))
      (read_exact-append (write_endpoint_id id) rest r)
    ∙ ap (λ i. (ok i, record r { input = rest })) (of_be16_lem id h)

-- What becomes of a stream that begins with an endpoint id: if the id is registered and its channel
-- open it goes to that endpoint, with the rest of its bytes unread; an id that is not registered and
-- a closed channel are different errors.
pub accept_channel-write :
    (clients : ClientMap) (is_open : ℕ → Bool) (id : ℕ) (rest : Bytes) (r : Reader)
    → id < 2 ^ 16
    → accept_channel clients is_open (record r { input = write_endpoint_id id ++ rest }) ≡ (
        if not (member id clients)
        then err RouterError.unknown_channel
        else if is_open id
        then ok (Delivery.stream id (record r { input = rest }))
        else err RouterError.channel_closed)
unfolding accept_channel
accept_channel-write clients is_open id rest r h = elim (Bool-cases (member id clients)) [
  | inl here ↦ elim (Bool-cases (is_open id)) [
    | inl o ↦ ap (route clients is_open) (read_endpoint_id-write id rest r h) ∙ rw (here, o) refl
    | inr o ↦ ap (route clients is_open) (read_endpoint_id-write id rest r h) ∙ rw (here, o) refl
  ]
  | inr gone ↦ ap (route clients is_open) (read_endpoint_id-write id rest r h) ∙ rw gone refl
]

without-absent :
    (id : ℕ) (clients : ClientMap) → member id clients ≡ false → without id clients ≡ clients
without-absent id [] h = refl
without-absent id (i ∷ is) h = ground (arith, without-absent id is)

-- An endpoint registers once; dropping its channel undoes the registration, without a panic.
pub unregister-register :
    (clients after : ClientMap) (id : ℕ)
    → register clients id ≡ ok after
    → (register after id ≡ err RouterError.endpoint_already_registered)
      × (unregister after id ≡ ok clients)
unfolding register unregister
unregister-register clients after id h = elim (Bool-cases (member id clients)) [
  | inl here ↦ absurd (
      never (
        subst
          (λ b.
            (if b then err RouterError.endpoint_already_registered else ok (id ∷ clients))
            ≡ ok after)
          here h))
  | inr fresh ↦
      subst
        (λ a.
          (register a id ≡ err RouterError.endpoint_already_registered)
          × (unregister a id ≡ ok clients))
        (same (
          subst
            (λ b.
              (if b then err RouterError.endpoint_already_registered else ok (id ∷ clients))
              ≡ ok after)
            fresh h))
        (rw own (refl, ap (λ c. ok c) (without-absent id clients fresh)))
]
  where
    own : (id == id) ≡ true
    own = ground arith

    never :
        ◌≡◌ {A = Result RouterError ClientMap}
          (err RouterError.endpoint_already_registered)
          (ok after)
        → ⊥
    never e = cc

    same :
        ◌≡◌ {A = Result RouterError ClientMap} (ok (id ∷ clients)) (ok after) → id ∷ clients ≡ after
    same e = cc
