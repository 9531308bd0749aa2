-- ===== src/Video/Search.antt =====
-- `binary_search_by_key` on a list sorted by that key, with no key twice. There the search has one
-- answer, and this scan from the front gives it; the lists of video_unreliable.rs are kept so
-- (Video/Groups/Invariant).
pub mod Sorted
use plank_kymux.Common.{ℕ, suc, List, [], ◌∷◌, ltb, ◌==◌, if◌then◌else◌}

-- `Ok(index)` and `Err(index)`.
pub data Search : Type 0 where
  found : ℕ → Search
  absent : ℕ → Search

abbrev pub next : Search → Search
next (found i) = found (suc i)
next (absent i) = absent (suc i)

-- `unwrap_or_else(|index| index)`
abbrev pub position : Search → ℕ
position (found i) = i
position (absent i) = i

unfoldable pub search {ℓ} : {A : Type ℓ} → (A → ℕ) → ℕ → List A → Search
search key k [] = absent 0
search key k (x ∷ xs) =
    if ltb (key x) k then next (search key k xs) else if key x == k then found 0 else absent 0
