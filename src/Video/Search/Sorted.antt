-- ===== src/Video/Search/Sorted.antt =====
-- The search, and the list operations at the indices that it gives, on lists sorted by a key.
use plank_kymux.Common.{
  ℕ, zero, suc, ◌≤◌, ◌<◌, ◌≡◌, refl, sym, ap, ◌∙◌, subst, ◌⊎◌, inl, inr, some, List, [], ◌∷◌, arith,
  get_elem?, set, drop, insert_at, remove_at, All,
}
use plank_kymux.Video.Search.{Search, found, absent, next, position, search}

module _ {ℓ κ} {A : Type ℓ} (P : A → Type κ) where
  pub All-insert_at : (i : ℕ) (a : A) (xs : List A) → P a → All P xs → All P (insert_at i a xs)
  All-insert_at zero a xs h v = (h, v)
  All-insert_at (suc i) a [] h v = (h, tt)
  All-insert_at (suc i) a (x ∷ xs) h v = (v.0, All-insert_at i a xs h v.1)

  pub All-set : (i : ℕ) (a : A) (xs : List A) → P a → All P xs → All P (set xs i a)
  All-set i a [] h v = tt
  All-set zero a (x ∷ xs) h v = (h, v.1)
  All-set (suc i) a (x ∷ xs) h v = (v.0, All-set i a xs h v.1)

  pub All-remove_at : (i : ℕ) (xs : List A) → All P xs → All P (remove_at i xs)
  All-remove_at i [] v = tt
  All-remove_at zero (x ∷ xs) v = v.1
  All-remove_at (suc i) (x ∷ xs) v = (v.0, All-remove_at i xs v.1)

  pub All-drop : (i : ℕ) (xs : List A) → All P xs → All P (drop i xs)
  All-drop zero xs v = v
  All-drop (suc i) [] v = tt
  All-drop (suc i) (x ∷ xs) v = All-drop i xs v.1

  pub All-get : (i : ℕ) (xs : List A) (a : A) → All P xs → get_elem? xs i ≡ some a → P a
  All-get i [] a v e = cc
  All-get zero (x ∷ xs) a v e = subst P (cc e) v.0
  All-get (suc i) (x ∷ xs) a v e = All-get i xs a v.1 e

pub All-map {ℓ κ μ} :
    {A : Type ℓ} (P : A → Type κ) (Q : A → Type μ) (f : (a : A) → P a → Q a) (xs : List A)
    → All P xs
    → All Q xs
All-map P Q f [] v = tt
All-map P Q f (x ∷ xs) v = (f x v.0, All-map P Q f xs v.1)

pub All-map2 {ℓ κ μ ν} :
    {A : Type ℓ} (P : A → Type κ) (Q : A → Type μ) (R : A → Type ν) (f : (a : A) → P a → Q a → R a)
    (xs : List A)
    → All P xs
    → All Q xs
    → All R xs
All-map2 P Q R f [] v w = tt
All-map2 P Q R f (x ∷ xs) v w = (f x v.0 w.0, All-map2 P Q R f xs v.1 w.1)

position-next : (s : Search) → position (next s) ≡ suc (position s)
position-next (found i) = refl
position-next (absent i) = refl

next_found : (s : Search) (i : ℕ) → next s ≡ found i → (j : ℕ) × (s ≡ found j) × (i ≡ suc j)
next_found (found j) i e = (j, refl, cc e)
next_found (absent j) i e = cc

next_absent : (s : Search) (i : ℕ) → next s ≡ absent i → (j : ℕ) × (s ≡ absent j) × (i ≡ suc j)
next_absent (found j) i e = cc
next_absent (absent j) i e = (j, refl, cc e)

module _ {ℓ} {A : Type ℓ} (key : A → ℕ) where
  -- Strictly increasing keys.
  abbrev pub Increasing : List A → Type 0
  Increasing [] = Unit {0}
  Increasing (x ∷ xs) = All (λ y. key x < key y) xs × Increasing xs

  search_cases :
      (k : ℕ) (x : A) (xs : List A)
      → ((key x < k) × (search key k (x ∷ xs) ≡ next (search key k xs)))
        ⊎ ((key x ≡ k) × (search key k (x ∷ xs) ≡ found 0))
        ⊎ ((k < key x) × (search key k (x ∷ xs) ≡ absent 0))
  unfolding search
  search_cases k x xs = ground arith

  pub found_lem :
      (k i : ℕ) (xs : List A)
      → search key k xs ≡ found i
      → (a : A) × (get_elem? xs i ≡ some a) × (key a ≡ k)
  unfolding search
  found_lem k i [] e = cc
  found_lem k i (x ∷ xs) e = elim (search_cases k x xs) [
    | inl (h, q) ↦
        let (j, r, s) = next_found (search key k xs) i (sym q ∙ e) in
        let (a, at, same) = found_lem k j xs r in (a, rw s at, same)
    | inr (inl (h, q)) ↦ (x, (let z : 0 ≡ i = cc (q, e) in rw (← z)), h)
    | inr (inr (h, q)) ↦ cc (q, e)
  ]

  pub get_elem?-insert_absent :
      (k i : ℕ) (a : A) (xs : List A)
      → search key k xs ≡ absent i
      → get_elem? (insert_at i a xs) i ≡ some a
  unfolding search
  get_elem?-insert_absent k i a [] e = (let z : 0 ≡ i = cc in rw (← z))
  get_elem?-insert_absent k i a (x ∷ xs) e = elim (search_cases k x xs) [
    | inl (h, q) ↦
        let (j, r, s) = next_absent (search key k xs) i (sym q ∙ e) in
        rw s (get_elem?-insert_absent k j a xs r)
    | inr (inl (h, q)) ↦ cc (q, e)
    | inr (inr (h, q)) ↦ (let z : 0 ≡ i = cc (q, e) in rw (← z))
  ]

  pub Increasing-insert_absent :
      (k i : ℕ) (a : A) (xs : List A)
      → search key k xs ≡ absent i
      → key a ≡ k
      → Increasing xs
      → Increasing (insert_at i a xs)
  unfolding search
  Increasing-insert_absent k i a [] e h v = (let z : 0 ≡ i = cc in rw (← z) (tt, tt))
  Increasing-insert_absent k i a (x ∷ xs) e h v = elim (search_cases k x xs) [
    | inl (l, q) ↦
        let (j, r, s) = next_absent (search key k xs) i (sym q ∙ e) in
        rw s (
          All-insert_at (λ y. key x < key y) j a xs (omega arith) v.0,
          Increasing-insert_absent k j a xs r h v.1,
        )
    | inr (inl (l, q)) ↦ cc (q, e)
    | inr (inr (l, q)) ↦
        (let z : 0 ≡ i = cc (q, e) in
          rw (← z) (
            (
              omega arith,
              All-map (λ y. key x < key y) (λ y. key a < key y) (λ y m. omega arith) xs v.0,
            ),
            v,
          ))
  ]

  pub Increasing-set :
      (i : ℕ) (a b : A) (xs : List A)
      → get_elem? xs i ≡ some b
      → key a ≡ key b
      → Increasing xs
      → Increasing (set xs i a)
  Increasing-set i a b [] e h v = tt
  Increasing-set zero a b (x ∷ xs) e h v =
      let same : key a ≡ key x = h ∙ ap key (cc e) in
      (All-map (λ y. key x < key y) (λ y. key a < key y) (λ y m. omega arith) xs v.0, v.1)
  Increasing-set (suc i) a b (x ∷ xs) e h v = (
    All-set (λ y. key x < key y) i a xs (rw h (All-get (λ y. key x < key y) i xs b v.0 e)) v.0,
    Increasing-set i a b xs e h v.1,
  )

  pub Increasing-remove_at : (i : ℕ) (xs : List A) → Increasing xs → Increasing (remove_at i xs)
  Increasing-remove_at i [] v = tt
  Increasing-remove_at zero (x ∷ xs) v = v.1
  Increasing-remove_at (suc i) (x ∷ xs) v =
      (All-remove_at (λ y. key x < key y) i xs v.0, Increasing-remove_at i xs v.1)

  pub Increasing-drop : (i : ℕ) (xs : List A) → Increasing xs → Increasing (drop i xs)
  Increasing-drop zero xs v = v
  Increasing-drop (suc i) [] v = tt
  Increasing-drop (suc i) (x ∷ xs) v = Increasing-drop i xs v.1

  above :
      (k : ℕ) (x : A) (xs : List A)
      → All (λ y. key x < key y) xs
      → k ≤ key x
      → All (λ y. k ≤ key y) xs
  above k x xs v h = All-map (λ y. key x < key y) (λ y. k ≤ key y) (λ y m. omega arith) xs v

  -- What the search leaves behind its position has keys from `k` on.
  pub All-drop-position :
      (k : ℕ) (xs : List A)
      → Increasing xs
      → All (λ y. k ≤ key y) (drop (position (search key k xs)) xs)
  unfolding search
  All-drop-position k [] v = tt
  All-drop-position k (x ∷ xs) v = elim (search_cases k x xs) [
    | inl (h, q) ↦ rw (q, position-next (search key k xs)) (All-drop-position k xs v.1)
    | inr (inl (h, q)) ↦ rw q (omega arith, above k x xs v.0 (omega arith))
    | inr (inr (h, q)) ↦ rw q (omega arith, above k x xs v.0 (omega arith))
  ]
