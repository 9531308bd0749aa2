-- ===== src/Connection/Ids.antt =====
-- `get_endpoint_id` of lib.rs: the ids that the two sides of a connection give to endpoints.
use plank_kymux.Common.{ℕ, zero, suc, ◌+◌, ◌*◌, ◌%◌, ◌^◌, ◌<◌, ◌≡◌, ◌≢◌, arith}
use plank_kymux.Connection.{Connection, new, get_endpoint_id, initiator_server, initiator_client}

-- The connection after `n` endpoint ids.
unfoldable pub allocate : ℕ → Connection → Connection
allocate zero c = c
allocate (suc n) c = (get_endpoint_id (allocate n c)).1

-- The `n`-th id, from 0.
unfoldable pub nth_id : ℕ → ℕ → ℕ
nth_id initiator n = (get_endpoint_id (allocate n (new initiator))).0

nth_id_lem : (initiator n : ℕ) → initiator < 2 → nth_id initiator n ≡ (initiator + 2 * n) % 2 ^ 16
unfolding nth_id allocate get_endpoint_id
nth_id_lem initiator zero h = omega arith
nth_id_lem initiator (suc n) h = omega (arith, nth_id_lem initiator n h)

-- The two sides never give the same id, however many they give.
pub nth_id-ne_sides : (m n : ℕ) → nth_id initiator_server m ≢ nth_id initiator_client n
nth_id-ne_sides m n h = omega (
  arith,
  nth_id_lem initiator_server m (omega arith),
  nth_id_lem initiator_client n (omega arith),
)

-- One side gives different ids, until it has given all 2^15 of its parity.
pub nth_id-injective :
    (initiator m n : ℕ)
    → initiator < 2
    → m < 2 ^ 15
    → n < 2 ^ 15
    → nth_id initiator m ≡ nth_id initiator n
    → m ≡ n
nth_id-injective initiator m n h lm ln e =
    omega (arith, nth_id_lem initiator m h, nth_id_lem initiator n h)
