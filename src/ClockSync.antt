-- ===== src/ClockSync.antt =====
-- clock_sync.rs of kyproto: the datagrams of a clock synchronisation, and a round of `sync`.
-- Timestamps are i64 in the source; here each is the u64 with the same bits, and those of the local
-- clock, microseconds since the epoch, are not negative.
pub mod Exchange
use plank_kymux.Common.{
  ℕ, ◌+◌, ◌*◌, ◌%◌, ◌^◌, Option, none, some, ◌++◌, leb, ◌==◌, if◌then◌else◌, Result, ok, err, ◌>>◌,
  guard, length,
}
use plank_kymux.Wire.{Bytes, be16, be32, be64, of_be16, of_be32}
use plank_kymux.Av.Packet.{at}

pub data SyncError : Type 0 where
  bad_request_length bad_response_length endpoint_mismatch channel_closed : SyncError

pub record ClockSyncResult : Type 0 where
  pub t1 : ℕ
  pub t2 : ℕ
  pub t3 : ℕ
  pub t4 : ℕ

pub record ClockSyncClient : Type 0 where
  pub endpoint_id : ℕ
  pub next_id : ℕ

abbrev pub u16_at : Bytes → ℕ → ℕ
u16_at buf i = of_be16 (at buf i) (at buf (i + 1))

abbrev pub u32_at : Bytes → ℕ → ℕ
u32_at buf i = of_be32 (at buf i) (at buf (i + 1)) (at buf (i + 2)) (at buf (i + 3))

abbrev pub u64_at : Bytes → ℕ → ℕ
u64_at buf i = u32_at buf i * 2 ^ 32 + u32_at buf (i + 4)

abbrev pub validate_sync_request : Bytes → Result SyncError (Unit {0})
validate_sync_request datagram = guard (length datagram == 14) bad_request_length

abbrev pub validate_sync_response : Bytes → ℕ → Result SyncError (Unit {0})
validate_sync_response response expected =
    guard (length response == 30) bad_response_length
    >> guard (u16_at response 0 == expected) endpoint_mismatch

-- What `sync` sends at time `t1`, with the client it leaves.
unfoldable pub sync_request : ClockSyncClient → ℕ → Bytes × ClockSyncClient
sync_request c t1 = (
  be16 c.endpoint_id ++ be32 c.next_id ++ be64 t1,
  record c { next_id = (c.next_id + 1) % 2 ^ 32 },
)

-- What becomes of a round of the loop of `sync`.
pub data Round : Type 0 where
  again : Round
  finished : Option ClockSyncResult → Round

-- What `recv_datagram` under the timeout gives.
pub data Arrival : Type 0 where
  timed_out closed : Arrival
  response : Bytes → Arrival

-- A round for the request `req_id` of an endpoint: at `now`, with what then arrives, at `t4`.
unfoldable pub sync_round : ℕ → ℕ → ℕ → ℕ → Arrival → ℕ → Result SyncError Round
sync_round expected req_id t1 now timed_out t4 = ok (finished none)
sync_round expected req_id t1 now closed t4 =
    if leb (t1 + 200_000) now then ok (finished none) else err channel_closed
sync_round expected req_id t1 now (response buf) t4 =
    if leb (t1 + 200_000) now
    then ok (finished none)
    else (validate_sync_response buf expected
        >> ok (
            if req_id == u32_at buf 2
            then finished (
                some
                  (record { t1 = u64_at buf 6; t2 = u64_at buf 14; t3 = u64_at buf 22; t4 = t4 }))
            else again))

-- A round of `serve`, which takes the times `t2` and `t3`.
unfoldable pub serve : Bytes → ℕ → ℕ → Result SyncError Bytes
serve datagram t2 t3 = validate_sync_request datagram >> ok (datagram ++ be64 t2 ++ be64 t3)
