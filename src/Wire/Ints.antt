-- ===== src/Wire/Ints.antt =====
-- Reading back the big-endian integers, and `read_exact` of a known front.
use plank_kymux.Common.{
  ℕ, ◌+◌, ◌*◌, ◌/◌, ◌%◌, ◌^◌, ◌≤◌, ◌<◌, ◌≡◌, ◌++◌, arith, ok, length, length-append, length-drop,
  take-length_append, drop-length_append,
}
use plank_kymux.Wire.{Bytes, byte, of_be16, of_be32, Reader, read_exact}

pub of_be16_lem : (n : ℕ) → n < 2 ^ 16 → of_be16 (byte 1 n) (byte 0 n) ≡ n
of_be16_lem n h = omega arith

pub of_be32_lem : (n : ℕ) → n < 2 ^ 32 → of_be32 (byte 3 n) (byte 2 n) (byte 1 n) (byte 0 n) ≡ n
of_be32_lem n h = omega arith

pub of_be64_lem : (n : ℕ) → n / 2 ^ 32 * 2 ^ 32 + n % 2 ^ 32 ≡ n
of_be64_lem n = omega arith

-- Reading as many bytes as a known front has gives that front and leaves the rest.
pub read_exact-append :
    (xs ys : Bytes) (e : Reader)
    → read_exact (length xs) (record e { input = xs ++ ys }) ≡ (ok xs, record e { input = ys })
unfolding read_exact
read_exact-append xs ys e =
    rw (take-length_append xs ys, drop-length_append xs ys) (ground (arith, length-append xs ys))

-- A successful read takes its bytes off the input.
pub read_exact_shrinks :
    (n : ℕ) (r r' : Reader) (bs : Bytes)
    → read_exact n r ≡ (ok bs, r')
    → length r'.input + n ≡ length r.input
unfolding read_exact
read_exact_shrinks n r r' bs e = ground (arith, length-drop n r.input)

pub read_exact_le : (n : ℕ) (r : Reader) → length (read_exact n r).1.input ≤ length r.input
unfolding read_exact
read_exact_le n r = ground (arith, length-drop n r.input)
