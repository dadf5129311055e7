-- ===== src/FileServer/Client.antt =====
-- components/FileServer/libFileServer-client/fsclient.c: the system calls of a client.
use global_components.Prelude.{
  ℕ, zero, suc, ◌+◌, ◌-◌, ◌*◌, ◌%◌, ◌^◌, true, false, Option, none, some, List, [], ◌∷◌, ltb, ◌==◌,
  Bool, if◌then◌else◌, count,
}
use global_components.Prelude.Int.{ℤ, pos, negsuc, pos_part, same_ℤ}
use global_components.Prelude.Memory.{memcpy}
use global_components.Errno.{minus_einval}

-- The client's memory, and the state `S` of the server that it calls.
pub record FsClient (S : Type 0) : Type 0 where
  pub server : S
  pub memory : ℕ → ℕ

-- The functions that are installed. `ext_read` writes into the dataport at `ext_buf`.
pub record FileServerInterface (S : Type 0) : Type 0 where
  pub ext_buf : ℕ
  pub ext_open : ℕ → ℤ → FsClient S → ℤ × FsClient S
  pub ext_read : ℤ → ℕ → FsClient S → ℤ × FsClient S
  pub ext_seek : ℤ → ℤ → ℤ → FsClient S → ℤ × FsClient S
  pub ext_close : ℤ → FsClient S → ℤ × FsClient S

-- `AT_FDCWD`
abbrev pub at_fdcwd : ℤ
at_fdcwd = negsuc 99

-- `(int64_t) ((high << 32) | low)`
unfoldable pub long_offset : ℕ → ℕ → ℤ
long_offset high low =
    let offset = high * 2 ^ 32 + low in
    if ltb offset (2 ^ 63) then pos offset else negsuc (2 ^ 64 - 1 - offset)

module _ {S : Type 0} (fs : FileServerInterface S) where
  unfoldable pub fileserver_open : ℕ → ℤ → FsClient S → ℤ × FsClient S
  fileserver_open pathname flags s = fs.ext_open pathname flags s

  unfoldable pub fileserver_openat : ℤ → ℕ → ℤ → FsClient S → ℤ × FsClient S
  fileserver_openat dirfd pathname flags s =
      if same_ℤ dirfd at_fdcwd then fs.ext_open pathname flags s else (minus_einval, s)

  unfoldable pub fileserver_close : ℤ → FsClient S → ℤ × FsClient S
  fileserver_close fd s = fs.ext_close fd s

  -- `n` bytes are copied from the dataport.
  unfoldable pub take_bytes : ℕ → ℕ → FsClient S → FsClient S
  take_bytes dst n s = record s { memory = memcpy dst fs.ext_buf n s.memory }

  -- The loop, for `fuel` rounds: the number of bytes in all and the state; none is that the rounds run out.
  unfoldable pub read_loop : ℕ → ℤ → ℕ → ℕ → ℕ → ℕ → FsClient S → Option (ℕ × FsClient S)
  read_loop zero fd buf total count remain s = none
  read_loop (suc fuel) fd buf total count remain s = elim (ltb total count) [
    | false ↦ some (total, s)
    | true ↦
        let (result, t) = fs.ext_read fd remain s in
        let n = pos_part result in
        elim (n == 0) [
          | true ↦ some (total, t)
          | false ↦
              read_loop fuel fd buf (total + n) count ((remain + 2 ^ 64 - n) % 2 ^ 64)
                (take_bytes (buf + total) n t)
        ]
  ]

  -- Each round but the last reads a byte at least.
  unfoldable pub fileserver_read : ℤ → ℕ → ℕ → FsClient S → Option (ℕ × FsClient S)
  fileserver_read fd buf count s = read_loop (count + 1) fd buf 0 count count s

  -- The inner loop of `fileserver_readv` on one area: whether it was filled, the bytes in all, and the state.
  unfoldable pub readv_loop : ℕ → ℤ → ℕ → ℕ → ℕ → ℕ → FsClient S → Option (Bool × ℕ × FsClient S)
  readv_loop zero fd base len offset total s = none
  readv_loop (suc fuel) fd base len offset total s = elim (ltb offset len) [
    | false ↦ some (true, total, s)
    | true ↦
        let (result, t) = fs.ext_read fd (len - offset) s in
        let n = pos_part result in
        elim (n == 0) [
          | true ↦ some (false, total, t)
          | false ↦
              readv_loop fuel fd base len (offset + n) (total + n) (take_bytes (base + offset) n t)
        ]
  ]

  -- The areas are pairs of an address and a length.
  unfoldable pub readv_areas : ℤ → List (ℕ × ℕ) → ℕ → FsClient S → Option (ℕ × FsClient S)
  readv_areas fd [] total s = some (total, s)
  readv_areas fd ((base, len) ∷ iov) total s = elim (readv_loop (len + 1) fd base len 0 total s) [
    | none ↦ none
    | some (filled, total', t) ↦ elim filled [
      | true ↦ readv_areas fd iov total' t
      | false ↦ some (total', t)
    ]
  ]

  unfoldable pub fileserver_readv : ℤ → List (ℕ × ℕ) → FsClient S → Option (ℕ × FsClient S)
  fileserver_readv fd iov s = readv_areas fd iov 0 s

  unfoldable pub fileserver_lseek : ℤ → ℤ → ℤ → FsClient S → ℤ × FsClient S
  fileserver_lseek fd offset whence s = fs.ext_seek fd offset whence s

  -- The result 0, what is stored through `result`, and the state.
  unfoldable pub fileserver_llseek : ℤ → ℕ → ℕ → ℤ → FsClient S → ℤ × ℤ × FsClient S
  fileserver_llseek fd high low whence s =
      let (offset, t) = fs.ext_seek fd (long_offset high low) whence s in (pos 0, offset, t)
