-- ===== src/FileServer/Server.antt =====
-- components/FileServer/src/server.c: the check of descriptors and the calls.
use global_components.Prelude.{ℕ, Bool, false, not, ltb, ◌==◌, if◌then◌else◌}
use global_components.Prelude.Int.{ℤ, pos, negsuc, ltb_ℤ, same_ℤ}
use global_components.Errno.{minus_ebadf, minus_enomem}

-- The C library over its own state `L`. `open_fd` is `open`; `is_cpio` is
-- the check of the descriptor's `filetype`, and `realloc` tells whether the descriptor's data could
-- grow. `read` is given the address and the length.
pub record Libc (L : Type 0) : Type 0 where
  pub open_fd : L → ℕ → ℤ → ℤ × L
  pub valid_fd : L → ℤ → Bool
  pub is_cpio : L → ℤ → Bool
  pub realloc : L → ℤ → Bool × L
  pub lseek : L → ℤ → ℤ → ℤ → ℤ × L
  pub read : L → ℤ → ℕ → ℕ → ℤ × L
  pub close : L → ℤ → ℤ × L

-- `owner` is the field `client` of each descriptor's data, and `client_buf` and `client_buf_size` the dataport of
-- each client.
pub record FileServer (L : Type 0) : Type 0 where
  pub libc : L
  pub owner : ℤ → ℕ
  pub client_buf : ℕ → ℕ
  pub client_buf_size : ℕ → ℕ

module _ {L : Type 0} (lib : Libc L) where
  unfoldable pub validate_client_fd : ℤ → ℕ → FileServer L → Bool
  validate_client_fd fd client s =
      if not (lib.valid_fd s.libc fd)
      then false
      else if not (lib.is_cpio s.libc fd)
      then false
      else s.owner fd == client

  -- The descriptor's data gets the sender.
  unfoldable pub own_fd : ℕ → ℤ → FileServer L → ℤ × FileServer L
  own_fd client fd s =
      let (grown, l) = lib.realloc s.libc fd in
      if grown
      then (fd, record s { libc = l; owner = λ g. if same_ℤ g fd then client else s.owner g })
      else (minus_enomem, record s { libc = (lib.close l fd).1 })

  -- The sender's badge is the first argument of each call.
  unfoldable pub fs_ctrl_open : ℕ → ℕ → ℤ → FileServer L → ℤ × FileServer L
  fs_ctrl_open client name flags s =
      let (fd, l) = lib.open_fd s.libc name flags in
      if ltb_ℤ fd (pos 0)
      then (fd, record s { libc = l })
      else own_fd client fd (record s { libc = l })

  unfoldable pub fs_ctrl_seek : ℕ → ℤ → ℤ → ℤ → FileServer L → ℤ × FileServer L
  fs_ctrl_seek client fd offset whence s =
      let (result, l) = lib.lseek s.libc fd offset whence in
      if not (validate_client_fd fd client s)
      then (negsuc 0, s)
      else (result, record s { libc = l })

  unfoldable pub fs_ctrl_read : ℕ → ℤ → ℕ → FileServer L → ℤ × FileServer L
  fs_ctrl_read client fd size s =
      let max = s.client_buf_size client in
      let n = if ltb size max then size else max in
      let (result, l) = lib.read s.libc fd (s.client_buf client) n in
      if not (validate_client_fd fd client s)
      then (negsuc 0, s)
      else (result, record s { libc = l })

  unfoldable pub fs_ctrl_close : ℕ → ℤ → FileServer L → ℤ × FileServer L
  fs_ctrl_close client fd s =
      let (result, l) = lib.close s.libc fd in
      if not (validate_client_fd fd client s)
      then (minus_ebadf, s)
      else (result, record s { libc = l })
