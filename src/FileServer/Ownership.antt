-- ===== src/FileServer/Ownership.antt =====
-- components/FileServer/src/server.c: who may use a descriptor.
use global_components.Prelude.{ℕ, ◌≡◌, ◌≢◌, true, false, arith}
use global_components.Prelude.Int.{ℤ, pos, negsuc}
use global_components.Errno.{minus_ebadf}
use global_components.FileServer.Server.{
  Libc, FileServer, validate_client_fd, own_fd, fs_ctrl_open, fs_ctrl_seek, fs_ctrl_read,
  fs_ctrl_close,
}

-- What the server relies on: growing the data of a descriptor leaves it open, and a descriptor that
-- `open_fd` gives is that of an open file of the archive.
pub record OpensFiles {L : Type 0} (lib : Libc L) (s : FileServer L) (name : ℕ) (flags : ℤ)
    : Type 0 where
  pub valid :
      let (fd, l) = lib.open_fd s.libc name flags in lib.valid_fd (lib.realloc l fd).1 fd ≡ true
  pub cpio :
      let (fd, l) = lib.open_fd s.libc name flags in lib.is_cpio (lib.realloc l fd).1 fd ≡ true

module _ {L : Type 0} (lib : Libc L) where
  -- A descriptor that belongs to another client can be neither moved, read nor closed: each call is
  -- refused and changes nothing.
  pub fd_refused :
      (s : FileServer L) (client size : ℕ) (fd offset whence : ℤ)
      → s.owner fd ≢ client
      → (fs_ctrl_seek lib client fd offset whence s ≡ (negsuc 0, s))
        × (fs_ctrl_read lib client fd size s ≡ (negsuc 0, s))
        × (fs_ctrl_close lib client fd s ≡ (minus_ebadf, s))
  unfolding fs_ctrl_seek fs_ctrl_read fs_ctrl_close validate_client_fd
  fd_refused s client size fd offset whence ne = (ground arith, ground arith, ground arith)

  -- A client that opens a file can use the descriptor that it is given, and no other client can; the
  -- client of any other descriptor does not change. The library must open the file as one of the
  -- archive, with memory for the descriptor's data.
  pub fs_ctrl_open-validate_client_fd :
      (s : FileServer L) (client other name fd : ℕ) (flags : ℤ)
      → OpensFiles lib s name flags
      → other ≢ client
      → (lib.open_fd s.libc name flags).0 ≡ pos fd
      → (lib.realloc (lib.open_fd s.libc name flags).1 (pos fd)).0 ≡ true
      → let (result, t) = fs_ctrl_open lib client name flags s in
        (result ≡ pos fd)
        × (validate_client_fd lib (pos fd) client t ≡ true)
        × (validate_client_fd lib (pos fd) other t ≡ false)
        × ((g : ℕ) → g ≢ fd → t.owner (pos g) ≡ s.owner (pos g))
  unfolding fs_ctrl_open own_fd validate_client_fd
  fs_ctrl_open-validate_client_fd s client other name fd flags h ne e grown =
      (ground arith, ground (arith, h.valid, h.cpio), ground arith, λ g ng. ground arith)
