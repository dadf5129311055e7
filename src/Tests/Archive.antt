-- ===== src/Tests/Archive.antt =====
-- A file server that gives two bytes at most.
use global_components.Prelude.{
  ℕ, ◌+◌, ◌-◌, ◌<◌, ◌≤◌, ◌≡◌, refl, List, [], ◌∷◌, length, drop, get_or, ltb, leb, ◌==◌,
  if◌then◌else◌, ◌&&◌, some, arith,
}
use global_components.Prelude.Int.{pos}
use global_components.FileServer.Client.{FsClient, FileServerInterface, fileserver_read}
use global_components.FileServer.Reading.{IsFile, IsRead, fileserver_read-IsRead}

-- How many bytes of a file are given, of `size` that are asked for.
abbrev part_of : ℕ → List ℕ → ℕ
part_of size [] = 0
part_of size (x ∷ []) = 1
part_of size (x ∷ y ∷ ys) = if size == 1 then 1 else 2

abbrev shown : List ℕ → ℕ → (ℕ → ℕ) → ℕ → ℕ
shown file n memory a =
    if leb 1000 a && ltb a (1000 + n) then get_or file (a - 1000) 0 else memory a

-- The state of the server is what is left of the file.
abbrev archive : FileServerInterface (List ℕ)
archive = record {
  ext_buf = 1000;
  ext_open = λ name flags s. (pos 3, s);
  ext_read = λ fd size s.
      let n = part_of size s.server in
      (pos n, record { server = drop n s.server; memory = shown s.server n s.memory });
  ext_seek = λ fd offset whence s. (offset, s);
  ext_close = λ fd s. (pos 0, s);
}

part_of_lem :
    (size : ℕ) (file : List ℕ)
    → 0 < size
    → (part_of size file ≤ size)
      × (part_of size file ≤ length file)
      × (part_of size file ≡ 0 → file ≡ [])
part_of_lem size [] h = (omega arith, omega arith, λ e. refl)
part_of_lem size (x ∷ []) h = (omega arith, omega arith, λ e. absurd (omega arith))
part_of_lem size (x ∷ y ∷ ys) h = (ground (arith, h), ground arith, λ e. absurd (ground (arith, e)))

archive-IsFile : IsFile archive (pos 3) (λ file. file) (λ a. 1000 ≤ a)
archive-IsFile = record {
  reads = λ size s h.
      let (most, there, ended) = part_of_lem size s.server h in
      (
        part_of size s.server,
        refl,
        most,
        there,
        ended,
        refl,
        λ i w. let at_i : 1000 + i - 1000 ≡ i = omega arith in rw at_i (ground arith),
      );
  keeps = λ size a s h. let below : a < 1000 = omega (arith, h) in ground (arith, below);
}

abbrev reader : FsClient (List ℕ)
reader = record { server = 10 ∷ 11 ∷ 12 ∷ 13 ∷ 14 ∷ []; memory = λ a. 0 }

-- Three bytes are read in two parts.
fileserver_read-IsRead_example :
    (m : ℕ) × (t : FsClient (List ℕ)) × (fileserver_read archive (pos 3) 16 3 reader ≡ some (m, t))
    × IsRead archive (λ file. file) 16 3 m reader t
fileserver_read-IsRead_example =
    fileserver_read-IsRead archive (pos 3) (λ file. file) (λ a. 1000 ≤ a) archive-IsFile 16 3 reader
      (omega arith) (λ i h w. omega (arith, h, w))
