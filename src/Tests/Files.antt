-- ===== src/Tests/Files.antt =====
-- The file server.
use global_components.Errno.{minus_ebadf}
use global_components.FileServer.Ownership.{fs_ctrl_open-validate_client_fd, fd_refused}
use global_components.FileServer.Server.{
  Libc, fs_ctrl_open, fs_ctrl_seek, FileServer, fs_ctrl_read, validate_client_fd, fs_ctrl_close,
}
use global_components.Prelude.{ℕ, ◌≡◌, refl, arith, ◌≢◌, false, ◌*◌, true}
use global_components.Prelude.Int.{pos, negsuc}

-- A library whose files all open at descriptor 3.
abbrev opens : Libc ℕ
opens = record {
  open_fd = λ l name flags. (pos 3, l);
  valid_fd = λ l fd. true;
  is_cpio = λ l fd. true;
  realloc = λ l fd. (true, l);
  lseek = λ l fd offset whence. (offset, l);
  read = λ l fd a n. (pos n, l);
  close = λ l fd. (pos 0, l);
}

-- Client 1 has every descriptor.
abbrev files : FileServer ℕ
files = record {
  libc = 0;
  owner = λ fd. 1;
  client_buf = λ client. 4096 * client;
  client_buf_size = λ client. 4096;
}

fd_refused_example :
    (fs_ctrl_seek opens 2 (pos 3) (pos 8) (pos 0) files ≡ (negsuc 0, files))
    × (fs_ctrl_read opens 2 (pos 3) 16 files ≡ (negsuc 0, files))
    × (fs_ctrl_close opens 2 (pos 3) files ≡ (minus_ebadf, files))
fd_refused_example = fd_refused opens files 2 16 (pos 3) (pos 8) (pos 0) (omega arith)

fs_ctrl_open-validate_client_fd_example :
    let (result, t) = fs_ctrl_open opens 2 7 (pos 0) files in
    (result ≡ pos 3)
    × (validate_client_fd opens (pos 3) 2 t ≡ true)
    × (validate_client_fd opens (pos 3) 1 t ≡ false)
    × ((g : ℕ) → g ≢ 3 → t.owner (pos g) ≡ 1)
fs_ctrl_open-validate_client_fd_example =
    fs_ctrl_open-validate_client_fd opens files 2 1 7 3 (pos 0)
      (record { valid = refl; cpio = refl }) (omega arith) refl refl
