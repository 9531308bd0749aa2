-- ===== src/Video/Groups/Choice.antt =====
-- What `next_packet` of `PendingGroups` chooses.
use plank_kymux.Common.{
  ℕ, suc, ◌+◌, ◌≡◌, refl, sym, ap, ◌∙◌, ◌⊎◌, inl, inr, Bool, true, false, Option, none, some, List,
  [], ◌∷◌, arith, ◌==◌, Bool-cases, get_elem?,
}
use mathlib.Core.Bool.{false≢true}
use plank_kymux.Video.Segments.{DatagramPacket}
use plank_kymux.Video.Group.{ConfigPacket, PendingGroup, StreamPacket, is_ready, is_none}
use plank_kymux.Video.Groups.{
  NextPacket, ready, config_is_next, cached_or, by_deadline, by_datagrams, next_packet_from,
  next_packet,
}

-- A group whose config packet (`true`) or whose first datagram (`false`) can be sent.
abbrev pub Sendable : Bool → PendingGroup → Type 0
Sendable true g = (p : StreamPacket) × (g.config_packet ≡ ConfigPacket.ready p)
Sendable false g =
    (is_none g.config_packet ≡ false)
    × (is_ready g.config_packet ≡ false)
    × (d : DatagramPacket) × (ds : List DatagramPacket) × (g.datagrams ≡ d ∷ ds)

-- The choice of the group with index `j`, of groups whose first has index `i`.
abbrev Chosen : ℕ → List PendingGroup → ℕ → Bool → Type 0
Chosen i gs j b =
    (m : ℕ) × (j ≡ i + m) × (g : PendingGroup) × (get_elem? gs m ≡ some g) × Sendable b g

here :
    (i : ℕ) (g : PendingGroup) (gs : List PendingGroup) (j : ℕ) (b : Bool)
    → i ≡ j
    → Sendable b g
    → Chosen i (g ∷ gs) j b
here i g gs j b e s = (0, omega arith, g, refl, s)

there :
    (i : ℕ) (g : PendingGroup) (gs : List PendingGroup) (j : ℕ) (b : Bool)
    → Chosen (suc i) gs j b
    → Chosen i (g ∷ gs) j b
there i g gs j b (m, e, h, at, s) = (suc m, omega arith, h, at, s)

sendable :
    (g : PendingGroup) (d : DatagramPacket) (ds : List DatagramPacket) (b : Bool)
    → is_none g.config_packet ≡ false
    → g.datagrams ≡ d ∷ ds
    → is_ready g.config_packet ≡ b
    → Sendable b g
sendable g d ds b n e r = go g.config_packet refl b r
  where
    go :
        (c : ConfigPacket)
        → g.config_packet ≡ c
        → (b : Bool) → is_ready g.config_packet ≡ b
        → Sendable b g
    go (ConfigPacket.ready p) q true r = (p, q)
    go (ConfigPacket.ready p) q false r = cc
    go ConfigPacket.missing q b r = cc
    go ConfigPacket.sent q true r = cc
    go ConfigPacket.sent q false r = (n, r, d, ds, e)

is_next_ready :
    (g : PendingGroup) (next : ℕ) (b : Bool)
    → config_is_next g.config_packet next ≡ true
    → true ≡ b
    → Sendable b g
is_next_ready g next b h e = go g.config_packet refl b e
  where
    go : (c : ConfigPacket) → g.config_packet ≡ c → (b : Bool) → true ≡ b → Sendable b g
    go (ConfigPacket.ready p) q true r = (p, q)
    go (ConfigPacket.ready p) q false r = cc
    go ConfigPacket.missing q b r =
        absurd (false≢true (ap (λ (x : ConfigPacket). config_is_next x next) (sym q) ∙ h))
    go ConfigPacket.sent q b r =
        absurd (false≢true (ap (λ (x : ConfigPacket). config_is_next x next) (sym q) ∙ h))

module _ (groups : List PendingGroup) (next now : ℕ) where
  by_deadline-ready :
      (i : ℕ) (config : Bool) (m : Option ℕ) (rest : NextPacket) (j : ℕ) (b : Bool)
      → by_deadline groups next now i config m rest ≡ ready j b
      → ((i ≡ j) × (config ≡ b)) ⊎ (rest ≡ ready j b)
  by_deadline-ready i config none rest j b e = inr e
  by_deadline-ready i config (some t) rest j b e = ground arith

  next_packet_from-Chosen :
      (i : ℕ) (cached : Option (Option ℕ)) (gs : List PendingGroup) (j : ℕ) (b : Bool)
      → next_packet_from groups next now i cached gs ≡ ready j b
      → Chosen i gs j b
  unfolding next_packet_from
  next_packet_from-Chosen i cached [] j b e = cc
  next_packet_from-Chosen i cached (g ∷ gs) j b e =
      let rest = next_packet_from-Chosen (suc i) cached gs j b in
      let rest_cached =
        next_packet_from-Chosen (suc i) (some (cached_or groups next now cached)) gs j b in
      elim (Bool-cases (is_none g.config_packet)) [
        | inl n ↦ there i g gs j b (rest (rw n at e))
        | inr n ↦ elim (Bool-cases (config_is_next g.config_packet next)) [
          | inl c ↦
              let e' = rw (n, c) at e in here i g gs j b (cc e') (is_next_ready g next b c (cc e'))
          | inr c ↦ on_datagrams rest rest_cached n g.datagrams refl (rw (n, c) at e)
        ]
      ]
    where
      on_datagrams :
          (next_packet_from groups next now (suc i) cached gs ≡ ready j b → Chosen (suc i) gs j b)
          → (next_packet_from groups next now (suc i) (some (cached_or groups next now cached)) gs
                ≡ ready j b
              → Chosen (suc i) gs j b)
          → is_none g.config_packet ≡ false
          → (ds : List DatagramPacket) → g.datagrams ≡ ds
          → by_datagrams groups next now i
              (is_ready g.config_packet)
              (cached_or groups next now cached)
              ds
              (next_packet_from groups next now (suc i) cached gs)
              (next_packet_from groups next now
                (suc i)
                (some (cached_or groups next now cached))
                gs)
            ≡ ready j b
          → Chosen i (g ∷ gs) j b
      on_datagrams rest rest_cached n [] q e = there i g gs j b (rest e)
      on_datagrams rest rest_cached n (d ∷ ds) q e = elim (Bool-cases (d.kypacket_seq == next)) [
        | inl y ↦ let e' = rw y at e in here i g gs j b (cc e') (sendable g d ds b n q (cc e'))
        | inr y ↦
            elim (by_deadline-ready i (is_ready g.config_packet) (cached_or groups next now cached)
              _ j b (rw y at e)) [
                | inl (x, z) ↦ here i g gs j b x (sendable g d ds b n q z)
                | inr r ↦ there i g gs j b (rest_cached r)
              ]
      ]

  -- What `next_packet` refers to is there, and can be sent.
  pub next_packet-Sendable :
      (j : ℕ) (b : Bool)
      → next_packet groups next now ≡ ready j b
      → (g : PendingGroup) × (get_elem? groups j ≡ some g) × Sendable b g
  unfolding next_packet
  next_packet-Sendable j b e =
      let (m, same, g, at, s) = next_packet_from-Chosen 0 none groups j b e in
      let z : j ≡ m = omega arith in (g, rw z at, s)
