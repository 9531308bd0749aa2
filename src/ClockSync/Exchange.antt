-- ===== src/ClockSync/Exchange.antt =====
-- A request, its response, and what the client makes of it.
use plank_kymux.Common.{
  ℕ, ◌+◌, ◌*◌, ◌/◌, ◌%◌, ◌^◌, ◌<◌, ◌≡◌, refl, true, false, some, arith, leb, ◌==◌, if◌then◌else◌,
  ok, ◌>>=◌,
}
use plank_kymux.Wire.{byte, of_be32}
use plank_kymux.Wire.Ints.{of_be16_lem, of_be32_lem}
use plank_kymux.ClockSync.{
  ClockSyncClient, again, finished, response, sync_request, sync_round, serve,
}

-- The fields of a client and of a time fit their types.
pub record IsClient (c : ClockSyncClient) : Type 0 where
  pub endpoint_lt : c.endpoint_id < 2 ^ 16
  pub next_lt : c.next_id < 2 ^ 32

u64_lem :
    (n : ℕ)
    → n < 2 ^ 64
    → of_be32
            (byte 3 (n / 2 ^ 32))
            (byte 2 (n / 2 ^ 32))
            (byte 1 (n / 2 ^ 32))
            (byte 0 (n / 2 ^ 32))
          * 2 ^ 32
        + of_be32
            (byte 3 (n % 2 ^ 32))
            (byte 2 (n % 2 ^ 32))
            (byte 1 (n % 2 ^ 32))
            (byte 0 (n % 2 ^ 32))
      ≡ n
u64_lem n h =
    rw (of_be32_lem (n / 2 ^ 32) (omega arith), of_be32_lem (n % 2 ^ 32) (omega arith))
      (omega arith)

-- The server's response to a request, taken before the deadline, gives the client that waits for it
-- the three times as they were sent; a client that waits for another request goes on waiting.
pub sync_round-serve :
    (c : ClockSyncClient) (req_id t1 t2 t3 t4 now : ℕ)
    → IsClient c
    → t1 < 2 ^ 64
    → t2 < 2 ^ 64
    → t3 < 2 ^ 64
    → now < t1 + 200_000
    → (serve (sync_request c t1).0 t2 t3 >>= λ buf.
        sync_round c.endpoint_id req_id t1 now (response buf) t4)
      ≡ ok (
          if req_id == c.next_id
          then finished (some (record { t1 = t1; t2 = t2; t3 = t3; t4 = t4 }))
          else again)
unfolding serve sync_request sync_round
sync_round-serve c req_id t1 t2 t3 t4 now v h1 h2 h3 early =
    let before : leb (t1 + 200_000) now ≡ false = ground arith in
    let own : (c.endpoint_id == c.endpoint_id) ≡ true = ground arith in
    rw
      (
        before,
        of_be16_lem c.endpoint_id v.endpoint_lt,
        own,
        of_be32_lem c.next_id v.next_lt,
        u64_lem t1 h1,
        u64_lem t2 h2,
        u64_lem t3 h3,
      )
      refl
