-- ===== src/Video/Receiver/Order.antt =====
-- The runs of `process` on what a sender of the schedule sent, and what the client has had.
use plank_kymux.Common.{
  ℕ, ◌+◌, ◌≤◌, ◌<◌, ◌≡◌, refl, sym, ◌∙◌, subst, inl, inr, List, [], ◌∷◌, ◌++◌, map, arith,
  Bool-cases, Result, ok, length,
}
use plank_kymux.Wire.{IoError}
use plank_kymux.Av.Packet.{AvPacket, MediaPacket}
use plank_kymux.Video.Schedule.{Schedule, IsSchedule}
use plank_kymux.Video.Receiver.{RecvMsg, Receiver, start, or_default, on_msg, on_deadline}
use plank_kymux.Video.Receiver.Steps.{
  ReceiverInv, start-ReceiverInv, Effect, Round, IsHonest, on_msg-Round, on_deadline-Round, quiet,
  passes, sends,
}

-- The receiver `r` is reached once it has sent `out` to the client, the latest first, and the
-- stream has brought the config packets of the groups below `seen`.
pub data Reaches (t : Schedule) : ℕ → List AvPacket → Receiver → Type 0 where
  init : Reaches t 0 [] start
  message :
      (seen seen' now : ℕ) (out out' : List AvPacket) (r r' : Receiver) (m : RecvMsg)
      → Reaches t seen out r
      → IsHonest t r seen m seen'
      → on_msg r m now ≡ ok (r', out')
      → Reaches t seen' (out' ++ out) r'
  wakes :
      (seen now : ℕ) (out out' : List AvPacket) (r r' : Receiver)
      → Reaches t seen out r
      → on_deadline r now ≡ ok (r', out')
      → Reaches t seen (out' ++ out) r'

-- All but the codec packets, which carry no number.
unfoldable pub numbered : List AvPacket → List AvPacket
numbered [] = []
numbered (AvPacket.codec _ ∷ ps) = numbered ps
numbered (p ∷ ps) = p ∷ numbered ps

-- Numbers below `n`, each below the one before.
abbrev pub Falls : ℕ → List ℕ → Type 0
Falls n [] = Unit
Falls n (k ∷ ks) = (k < n) × Falls k ks

-- What the client has been sent: the packets of falling numbers, the latest first, all below the next
-- number; those sent and those counted as dropped are all the numbers below it.
pub record Delivered (t : Schedule) (r : Receiver) (out : List AvPacket) : Type 0 where
  pub numbers : List ℕ
  pub falls : Falls r.next_kypacket_seq numbers
  pub packets : numbered out ≡ map t.packet_of numbers
  pub accounted : length numbers + or_default r.dropped_packets ≡ r.next_kypacket_seq

Falls-weaken : (m n : ℕ) (ks : List ℕ) → m ≤ n → Falls m ks → Falls n ks
Falls-weaken m n [] h f = f
Falls-weaken m n (k ∷ ks) h (lo, f) = (omega arith, f)

numbered-media :
    (p : AvPacket) (ps : List AvPacket) (m : MediaPacket)
    → p ≡ AvPacket.media m
    → numbered (p ∷ ps) ≡ p ∷ numbered ps
unfolding numbered
numbered-media p ps m e = rw e refl

ok-injective : {A : Type 0} → {x y : A} → ◌≡◌ {A = Result IoError A} (ok x) (ok y) → x ≡ y
ok-injective h = cc

module _ (t : Schedule) (sched : IsSchedule t) where
  media_of : (k : ℕ) → (m : MediaPacket) × (t.packet_of k ≡ AvPacket.media m)
  media_of k = elim (Bool-cases (t.config k)) [
    | inl c ↦ sched.config_at k c
    | inr d ↦ let m = sched.media_at k d in (m.media, m.same)
  ]

  Effect-Delivered :
      (r r' : Receiver) (out out' : List AvPacket)
      → Effect t r r' out'
      → Delivered t r out
      → Delivered t r' (out' ++ out)
  unfolding numbered
  Effect-Delivered r r' out out' (quiet e n p) d = rw e (record {
    numbers = d.numbers;
    falls = rw n d.falls;
    packets = d.packets;
    accounted = rw (n, p) d.accounted;
  })
  Effect-Delivered r r' out out' (passes c e n p) d = rw e (record {
    numbers = d.numbers;
    falls = rw n d.falls;
    packets = d.packets;
    accounted = rw (n, p) d.accounted;
  })
  Effect-Delivered r r' out out' (sends k e lo n p) d = rw e (record {
    numbers = k ∷ d.numbers;
    falls = rw n (omega arith, Falls-weaken _ k d.numbers lo d.falls);
    packets =
        let (m, em) = media_of k in rw (numbered-media (t.packet_of k) out m em, d.packets) refl;
    accounted = omega arith;
  })

  Round-Delivered :
      (seen : ℕ) (r r' : Receiver) (out out' : List AvPacket)
      (x : Result IoError (Receiver × List AvPacket))
      → Round t seen r x
      → x ≡ ok (r', out')
      → Delivered t r out
      → ReceiverInv t seen r' × Delivered t r' (out' ++ out)
  Round-Delivered seen r r' out out' x round e d =
      subst (λ q. ReceiverInv t seen q.0 × Delivered t q.0 (q.1 ++ out)) same
        (round.inv, Effect-Delivered r round.after out round.out round.effect d)
    where
      same : ◌≡◌ {A = Receiver × List AvPacket} (round.after, round.out) (r', out')
      same = ok-injective (sym round.run ∙ e)

  -- In every run from the start on honest messages and deadlines, the receiver keeps its invariant,
  -- and the client is sent packets of the schedule in the order of their numbers, none twice; the
  -- packets sent and those counted as dropped are all the numbers below the next one.
  pub Reaches-Delivered :
      (seen : ℕ) (out : List AvPacket) (r : Receiver)
      → Reaches t seen out r
      → ReceiverInv t seen r × Delivered t r out
  unfolding numbered start
  Reaches-Delivered seen out r init =
      (start-ReceiverInv t, record { numbers = []; falls = tt; packets = refl; accounted = refl })
  Reaches-Delivered seen out r (message seen0 seen' now out0 out' r0 r' m h honest e) =
      let (v, d) = Reaches-Delivered seen0 out0 r0 h in
      Round-Delivered seen' r0 r' out0 out' _ (on_msg-Round t sched seen0 seen' now r0 m v honest) e
        d
  Reaches-Delivered seen out r (wakes seen0 now out0 out' r0 r' h e) =
      let (v, d) = Reaches-Delivered seen0 out0 r0 h in
      Round-Delivered seen0 r0 r' out0 out' _ (on_deadline-Round t sched seen0 now r0 v) e d

  -- In every run, an honest message that comes next is taken in without a panic.
  pub on_msg-ne-panic :
      (seen seen' now : ℕ) (out : List AvPacket) (r : Receiver) (m : RecvMsg)
      → Reaches t seen out r
      → IsHonest t r seen m seen'
      → (next : Receiver × List AvPacket) × (on_msg r m now ≡ ok next)
  on_msg-ne-panic seen seen' now out r m h honest =
      let d = on_msg-Round t sched seen seen' now r m (Reaches-Delivered seen out r h).0 honest in
      ((d.after, d.out), d.run)
