-- ===== src/VideoFec/Groups/Admission.antt =====
-- `admit` of video_unreliable_fec.rs: room for one object more.
use plank_kymux.Common.{
  ℕ, zero, suc, ◌+◌, ◌≤◌, ◌<◌, ◌≡◌, refl, Option, none, some, List, arith, Result, ok, err, panic,
  Safe, Safe-weaken, Safe-bind,
}
use plank_kymux.Fec.{Oti, Raptorq, FecError, budget, max_video_payload, max_pending_objects}
use plank_kymux.Fec.Validation.{IsReal, check_pending_lem}
use plank_kymux.Video.Group.{ConfigPacket}
use plank_kymux.VideoFec.Group.{PendingGroup}
use plank_kymux.VideoFec.Groups.{
  PendingGroups, objects, bytes, check_capacity, retire_oldest_media, admit_next, admit_loop, admit,
}
use plank_kymux.VideoFec.Groups.Order.{total, objects_total, IsOrdered, config_objects}
use plank_kymux.VideoFec.Groups.Retirement.{AllShrink, Retires, retire_oldest_media-Retires}

module _ {D : Type 0} (R : Raptorq D) where
  -- The groups of `ps'` hold no more than those of `ps`, and an object of `additional` bytes fits.
  pub record IsAdmitted (additional : ℕ) (ps ps' : PendingGroups D) : Type 0 where
    pub ordered : IsOrdered R ps'.pending_groups
    pub objects_lt : objects ps'.pending_groups < max_pending_objects
    pub bytes_le : bytes ps'.pending_groups + additional ≤ budget max_video_payload
    pub charged :
        (c : Oti → ℕ) (w : ConfigPacket → ℕ)
        → total c w ps'.pending_groups ≤ total c w ps.pending_groups

  check_capacity_lem :
      (ps : PendingGroups D) (additional : ℕ)
      → Safe IsReal
          (λ u.
            (objects ps.pending_groups < max_pending_objects)
            × (bytes ps.pending_groups + additional ≤ budget max_video_payload))
          (check_capacity ps additional)
  unfolding check_capacity
  check_capacity_lem ps a =
      check_pending_lem (objects ps.pending_groups) (bytes ps.pending_groups) a max_video_payload

  -- An object less to hold is a round less.
  fewer : (gs gs' : List (PendingGroup D)) → AllShrink R gs gs' → suc (objects gs') ≤ objects gs
  fewer gs gs' h =
      omega (arith, h.charged (λ o. 1) config_objects, objects_total gs, objects_total gs')

  -- What the rounds that are left do.
  abbrev Admits : ℕ → ℕ → ℕ → Type 0
  Admits fuel a now =
      (ps : PendingGroups D)
      → IsOrdered R ps.pending_groups
      → objects ps.pending_groups < fuel
      → Safe IsReal (IsAdmitted a ps) (admit_loop fuel ps a now)

  admit_next_lem :
      (fuel a now : ℕ) (ps : PendingGroups D) (failure : FecError)
      → Admits fuel a now
      → objects ps.pending_groups < suc fuel
      → IsReal failure
      → (o : Option (PendingGroups D)) → Retires R ps o
      → Safe IsReal (IsAdmitted a ps) (admit_next failure (λ ps'. admit_loop fuel ps' a now) o)
  admit_next_lem fuel a now ps failure again below real none h = real
  admit_next_lem fuel a now ps failure again below real (some ps') h =
      Safe-weaken IsReal (IsAdmitted a ps') (IsAdmitted a ps) (admit_loop fuel ps' a now)
        (again ps' h.ordered (omega (arith, fewer ps.pending_groups ps'.pending_groups h)))
        λ q e got. record {
          ordered = got.ordered;
          objects_lt = got.objects_lt;
          bytes_le = got.bytes_le;
          charged = λ c w. omega (arith, got.charged c w, h.charged c w);
        }

  admit_loop_lem : (fuel a now : ℕ) → Admits fuel a now
  unfolding admit_loop
  admit_loop_lem zero a now ps v h = absurd (omega arith)
  admit_loop_lem (suc fuel) a now ps v h = go (check_capacity ps a) refl (admit_loop_lem fuel a now)
    where
      go :
          (r : Result FecError (Unit {0}))
          → check_capacity ps a ≡ r
          → Admits fuel a now
          → Safe IsReal (IsAdmitted a ps) (admit_loop (suc fuel) ps a now)
      go (ok u) e again =
          let (few, small) = rw e at (check_capacity_lem ps a) in
          rw (e, admit_loop)
            record { ordered = v; objects_lt = few; bytes_le = small; charged = λ c w. omega arith }
      go (err failure) e again =
          let real : IsReal failure = rw e at (check_capacity_lem ps a) in
          rw (e, admit_loop)
            (Safe-bind IsReal (Retires R ps) (IsAdmitted a ps) (retire_oldest_media ps now) _
              (retire_oldest_media-Retires R ps now v)
              λ o e2 retired. admit_next_lem fuel a now ps failure again h real o retired)
      go panic e again = absurd (rw e at (check_capacity_lem ps a))

  -- Whatever is pending, `admit` neither panics nor runs out of rounds; what it lets in fits.
  pub admit-IsAdmitted :
      (ps : PendingGroups D) (additional now : ℕ)
      → IsOrdered R ps.pending_groups
      → objects ps.pending_groups ≤ max_pending_objects
      → Safe IsReal (IsAdmitted additional ps) (admit ps additional now)
  unfolding admit
  admit-IsAdmitted ps a now v h = admit_loop_lem (max_pending_objects + 1) a now ps v (omega arith)
