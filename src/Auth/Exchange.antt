-- ===== src/Auth/Exchange.antt =====
-- What `connect_with_auth` writes, against `accept_with_auth`.
use plank_kymux.Common.{
  ℕ, ◌^◌, ◌<◌, ◌≡◌, refl, ap, ◌∙◌, inl, inr, true, Option, some, ◌++◌, arith, ltb, leb,
  if◌then◌else◌, Bool-cases, ok, err, length,
}
use plank_kymux.Wire.{Bytes, be16, Reader}
use plank_kymux.Wire.Ints.{of_be16_lem, read_exact-append}
use plank_kymux.Auth.{
  token_max_len, ClientAuth, AuthError, new, connect_with_auth, read_auth, read_sized,
  accept_with_auth,
}

new_fits :
    (token : Bytes) (auth : ClientAuth)
    → new token ≡ ok auth
    → leb (length auth.token) token_max_len ≡ true
unfolding new
new_fits token auth e = ground arith

-- An auth that `new` accepts, whose encoding is shorter than 2^16 bytes and decodes to it, is sent; the
-- server takes it if the encoding is no longer than `TOKEN_MAX_LEN`, and rejects it as too big if not,
-- whatever the length of the token.
pub accept_with_auth-connect_with_auth :
    (to_vec : ClientAuth → Bytes) (from_slice : Bytes → Option ClientAuth) (token rest : Bytes)
    (auth : ClientAuth) (r : Reader)
    → new token ≡ ok auth
    → from_slice (to_vec auth) ≡ some auth
    → length (to_vec auth) < 2 ^ 16
    → (sent : Bytes) × (connect_with_auth to_vec from_slice auth ≡ ok sent)
      × ((accept_with_auth to_vec from_slice (record r { input = sent ++ rest })).0
          ≡ (if ltb token_max_len (length (to_vec auth)) then err AuthError.too_big else ok auth))
unfolding new connect_with_auth accept_with_auth
accept_with_auth-connect_with_auth to_vec from_slice token rest auth r e back short = (
  be16 n ++ to_vec auth,
  rw (fits, small) refl,
  ap (λ q. (read_sized to_vec from_slice q).0) (read_exact-append (be16 n) (to_vec auth ++ rest) r)
      ∙ sized,
)
  where
    n : ℕ
    n = length (to_vec auth)

    fits : leb (length auth.token) token_max_len ≡ true
    fits = new_fits token auth e

    small : ltb n (2 ^ 16) ≡ true
    small = ground arith

    sized :
        (read_sized to_vec from_slice (ok (be16 n), record r { input = to_vec auth ++ rest })).0
        ≡ (if ltb token_max_len n then err AuthError.too_big else ok auth)
    sized = elim (Bool-cases (ltb token_max_len n)) [
      | inl big ↦ rw (of_be16_lem n short, big) refl
      | inr ok_size ↦
          rw (of_be16_lem n short, ok_size)
            (ap (λ q. (read_auth to_vec from_slice q).0) (read_exact-append (to_vec auth) rest r)
              ∙ rw back refl)
    ]
