-- ===== src/Control/Rendezvous.antt =====
-- control.rs: the two halves of an endpoint's readiness, the local notifier and the peer's message,
-- over a sequence of events.
use plank_kymux.Common.{
  ℕ, suc, ◌≤◌, ◌≡◌, refl, ap, ◌∙◌, subst, inl, inr, Bool, true, false, ◌&&◌, ◌||◌, Option, none,
  some, List, [], ◌∷◌, arith, leb, ◌==◌, if◌then◌else◌, Bool-cases, Result, ok, lookup,
  lookup-erase, lookup-erase_ne,
}
use plank_kymux.Control.{
  ControlError, ControlMsg, PendingReady, awaiting_local, awaiting_remote, State, new, Handled,
  notifies, register_ready_notifier, start_registration, handle_msg,
}

pub data Event : Type 0 where
  notifier registration : ℕ → Event
  message : ControlMsg → Event

-- The state after an event, and whether it makes the notifier of `id` fire. Errors are not fatal.
abbrev pub fires : ℕ → Result ControlError Handled → Bool
fires id (ok (notifies i)) = i == id
fires id _ = false

abbrev pub is_fired : Result ControlError Bool → Bool
is_fired (ok b) = b
is_fired _ = false

abbrev pub step : ℕ → Event → State → State × Bool
step id (notifier i) s = (
  (register_ready_notifier i s).0,
  if i == id then is_fired (register_ready_notifier i s).1 else false,
)
step id (registration i) s = ((start_registration i s).0, false)
step id (message m) s = ((handle_msg m true s).0, fires id (handle_msg m true s).1)

-- Whether any of the events makes the notifier of `id` fire.
unfoldable pub fired : ℕ → List Event → State → Bool
fired id [] s = false
fired id (e ∷ es) s = (step id e s).1 || fired id es (step id e s).0

abbrev pub is_notifier : ℕ → Event → Bool
is_notifier id (notifier i) = i == id
is_notifier id _ = false

abbrev pub is_ready_of : ℕ → ControlMsg → Bool
is_ready_of id (ControlMsg.ready i) = i == id
is_ready_of id _ = false

abbrev pub is_ready : ℕ → Event → Bool
is_ready id (message m) = is_ready_of id m
is_ready id _ = false

unfoldable pub count : (Event → Bool) → List Event → ℕ
count f [] = 0
count f (e ∷ es) = if f e then suc (count f es) else count f es

-- What the map holds for an endpoint, by which halves have come.
abbrev pub expected : Bool → Bool → Option PendingReady
expected false false = none
expected false true = some awaiting_local
expected true false = some awaiting_remote
expected true true = none

abbrev pub both : ℕ → ℕ → Bool
both m n = leb 1 m && leb 1 n

other_notifier :
    (id i : ℕ) (s : State)
    → (i == id) ≡ false
    → lookup id (register_ready_notifier i s).0.pending_ready ≡ lookup id s.pending_ready
unfolding register_ready_notifier
other_notifier id i s h = ground (arith, lookup-erase_ne id i s.pending_ready h)

other_registration :
    (id i : ℕ) (s : State)
    → lookup id (start_registration i s).0.pending_ready ≡ lookup id s.pending_ready
unfolding start_registration
other_registration id i s = ground arith

other_message :
    (id : ℕ) (m : ControlMsg) (s : State)
    → is_ready_of id m ≡ false
    → (lookup id (handle_msg m true s).0.pending_ready ≡ lookup id s.pending_ready)
      × (fires id (handle_msg m true s).1 ≡ false)
unfolding handle_msg
other_message id (ControlMsg.register_endpoint i) s h = (ground arith, ground arith)
other_message id (ControlMsg.endpoint_registered i) s h = (ground arith, ground arith)
other_message id (ControlMsg.ready i) s h =
    (ground (arith, lookup-erase_ne id i s.pending_ready h), ground (arith))

own_notifier :
    (id i : ℕ) (s : State) (b : Bool)
    → (i == id) ≡ true
    → lookup id s.pending_ready ≡ expected false b
    → (lookup id (register_ready_notifier i s).0.pending_ready ≡ expected true b)
      × (is_fired (register_ready_notifier i s).1 ≡ b)
unfolding register_ready_notifier
own_notifier id i s false h e = (ground (arith, lookup-erase id s.pending_ready), ground arith)
own_notifier id i s true h e = (ground (arith, lookup-erase id s.pending_ready), ground arith)

own_ready :
    (id i : ℕ) (s : State) (a : Bool)
    → (i == id) ≡ true
    → lookup id s.pending_ready ≡ expected a false
    → (lookup id (handle_msg (ControlMsg.ready i) true s).0.pending_ready ≡ expected a true)
      × (fires id (handle_msg (ControlMsg.ready i) true s).1 ≡ a)
unfolding handle_msg
own_ready id i s false h e = (ground (arith, lookup-erase id s.pending_ready), ground arith)
own_ready id i s true h e = (ground (arith, lookup-erase id s.pending_ready), ground arith)

-- At most one, and none where it has come already.
abbrev pub IsOnce : Bool → ℕ → Type 0
IsOnce true n = n ≡ 0
IsOnce false n = n ≤ 1

-- Whether the notifier fires later on, by what has come before and what is still to come.
abbrev pub fires_later : Bool → Bool → ℕ → ℕ → Bool
fires_later true true m n = false
fires_later true false m n = leb 1 n
fires_later false true m n = leb 1 m
fires_later false false m n = both m n

IsOnce-suc : (a : Bool) (n : ℕ) → IsOnce a (suc n) → (a ≡ false) × IsOnce true n
IsOnce-suc true n h = absurd (omega arith)
IsOnce-suc false n h = (refl, omega arith)

-- The half that comes now, and what is still to come after it.
after_notifier :
    (b now later : Bool) (m n : ℕ)
    → now ≡ b
    → later ≡ fires_later true b m n
    → (now || later) ≡ fires_later false b (suc m) n
after_notifier true now later m n h k = rw h (ground arith)
after_notifier false now later m n h k = rw (h, k) (ground arith)

after_ready :
    (a now later : Bool) (m n : ℕ)
    → now ≡ a
    → later ≡ fires_later a true m n
    → (now || later) ≡ fires_later a false m (suc n)
after_ready true now later m n h k = rw h (ground arith)
after_ready false now later m n h k = rw (h, k) (ground arith)

fired_from :
    (id : ℕ) (es : List Event) (s : State) (a b : Bool)
    → lookup id s.pending_ready ≡ expected a b
    → IsOnce a (count (is_notifier id) es)
    → IsOnce b (count (is_ready id) es)
    → fired id es s ≡ fires_later a b (count (is_notifier id) es) (count (is_ready id) es)
unfolding fired count
fired_from id [] s false false e m n = refl
fired_from id [] s false true e m n = refl
fired_from id [] s true false e m n = refl
fired_from id [] s true true e m n = refl
fired_from id (notifier i ∷ es) s a b e m n = elim (Bool-cases (i == id)) [
  | inl own ↦
      let (fresh, rest) = IsOnce-suc a (count (is_notifier id) es) (
        subst
          (λ t. IsOnce a (if t then suc (count (is_notifier id) es) else count (is_notifier id) es))
          own m) in
      let (e', now) = own_notifier id i s b own (e ∙ ap (λ x. expected x b) fresh) in
      rw (fresh, own)
        (after_notifier b _ _ _ _ now
          (fired_from id es (register_ready_notifier i s).0 true b e' rest n))
  | inr other ↦ rw other (
      fired_from id es (register_ready_notifier i s).0 a b (other_notifier id i s other ∙ e)
        (subst
          (λ t. IsOnce a (if t then suc (count (is_notifier id) es) else count (is_notifier id) es))
          other m)
        n)
]
fired_from id (registration i ∷ es) s a b e m n =
    fired_from id es (start_registration i s).0 a b (other_registration id i s ∙ e) m n
fired_from id (message (ControlMsg.ready i) ∷ es) s a b e m n = elim (Bool-cases (i == id)) [
  | inl own ↦
      let (fresh, rest) = IsOnce-suc b (count (is_ready id) es) (
        subst (λ t. IsOnce b (if t then suc (count (is_ready id) es) else count (is_ready id) es))
          own n) in
      let (e', now) = own_ready id i s a own (e ∙ ap (λ x. expected a x) fresh) in
      rw (fresh, own)
        (after_ready a _ _ _ _ now
          (fired_from id es (handle_msg (ControlMsg.ready i) true s).0 a true e' m rest))
  | inr other ↦
      let (e', not_now) = other_message id (ControlMsg.ready i) s other in
      rw (other, not_now)
        (fired_from id es (handle_msg (ControlMsg.ready i) true s).0 a b (e' ∙ e) m (
          subst (λ t. IsOnce b (if t then suc (count (is_ready id) es) else count (is_ready id) es))
            other n))
]
fired_from id (message (ControlMsg.register_endpoint i) ∷ es) s a b e m n =
    let (e', not_now) = other_message id (ControlMsg.register_endpoint i) s refl in
    rw not_now
      (fired_from id es (handle_msg (ControlMsg.register_endpoint i) true s).0 a b (e' ∙ e) m n)
fired_from id (message (ControlMsg.endpoint_registered i) ∷ es) s a b e m n =
    let (e', not_now) = other_message id (ControlMsg.endpoint_registered i) s refl in
    rw not_now
      (fired_from id es (handle_msg (ControlMsg.endpoint_registered i) true s).0 a b (e' ∙ e) m n)

-- From a fresh state, whatever else the peer and the other endpoints do: with at most one notifier
-- and at most one ready message of an endpoint, its notifier fires if, and only if, both come,
-- whichever comes first.
pub fired_iff_both :
    (id : ℕ) (es : List Event)
    → count (is_notifier id) es ≤ 1
    → count (is_ready id) es ≤ 1
    → fired id es new ≡ both (count (is_notifier id) es) (count (is_ready id) es)
fired_iff_both id es m n = fired_from id es new false false refl m n
