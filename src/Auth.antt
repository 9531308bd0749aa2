-- ===== src/Auth.antt =====
-- auth.rs of kyproto, with `connect_with_auth` and `accept_with_auth` of lib.rs: the token that a
-- client sends first. The MessagePack encoding of rmp_serde is a parameter.
pub mod Exchange
use plank_kymux.Common.{
  ℕ, ◌^◌, Option, none, some, ◌++◌, ltb, leb, if◌then◌else◌, Result, ok, err, panic, ◌>>=◌, ◌>>◌,
  require, length, get_or,
}
use plank_kymux.Wire.{Bytes, be16, of_be16, IoError, Reader, read_exact}

abbrev pub token_max_len : ℕ
token_max_len = 1024

pub record ClientAuth : Type 0 where
  pub token : Bytes

pub data AuthError : Type 0 where
  token_size_invalid size_failed too_big auth_failed not_decoded : AuthError

-- `ClientAuth::new`
unfoldable pub new : Bytes → Result AuthError ClientAuth
new token =
    if ltb token_max_len (length token)
    then err token_size_invalid
    else ok (record { token = token })

module _ (to_vec : ClientAuth → Bytes) (from_slice : Bytes → Option ClientAuth) where
  -- What `connect_with_auth` writes before it waits for the confirmation.
  unfoldable pub connect_with_auth : ClientAuth → Result AuthError Bytes
  connect_with_auth auth = do
    require (leb (length auth.token) token_max_len)
    require (ltb (length (to_vec auth)) (2 ^ 16))
    ok (be16 (length (to_vec auth)) ++ to_vec auth)

  abbrev pub decoded : Option ClientAuth → Result AuthError ClientAuth
  decoded none = err not_decoded
  decoded (some auth) = ok auth

  -- What follows once the bytes of the auth are read, or are not.
  abbrev pub read_auth : Result IoError Bytes × Reader → Result AuthError ClientAuth × Reader
  read_auth (ok buf, rest) = (decoded (from_slice buf), rest)
  read_auth (err _, rest) = (err auth_failed, rest)
  read_auth (panic, rest) = (panic, rest)

  -- What follows once the size is read, or is not.
  abbrev pub read_sized : Result IoError Bytes × Reader → Result AuthError ClientAuth × Reader
  read_sized (ok buf, rest) =
      let len = of_be16 (get_or buf 0 0) (get_or buf 1 0) in
      if ltb token_max_len len then (err too_big, rest) else read_auth (read_exact len rest)
  read_sized (err _, rest) = (err size_failed, rest)
  read_sized (panic, rest) = (panic, rest)

  unfoldable pub accept_with_auth : Reader → Result AuthError ClientAuth × Reader
  accept_with_auth r = read_sized (read_exact 2 r)
