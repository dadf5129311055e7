-- ===== src/FileServer/Reading.antt =====
-- components/FileServer/libFileServer-client/fsclient.c: short reads are made whole.
use global_components.Prelude.Memory.{memcpy_lem, memcpy_below}
use global_components.Prelude.{
  ℕ, zero, suc, ◌+◌, ◌-◌, ◌^◌, ◌<◌, ◌≤◌, ◌≡◌, ◌∙◌, inl, inr, some, List, [], arith, length, drop,
  get_or, Bool-cases, ltb, ap, drop-drop, ◌%◌, refl, sym, true, false, ◌==◌, length-drop,
  get_or-drop, subst, drop-nil, count,
}
use global_components.Prelude.Int.{ℤ, pos, pos_part}
use global_components.FileServer.Client.{
  FsClient, FileServerInterface, take_bytes, read_loop, fileserver_read,
}

module _ {S : Type 0} (fs : FileServerInterface S) where
  -- A descriptor of a file that can be read: `upcoming` is what is left of it, `IsShared` tells the addresses of
  -- the dataport. A call may read less than is asked for, but reads nothing only at the end.
  pub record IsFile (fd : ℤ) (upcoming : S → List ℕ) (IsShared : ℕ → Type 0) : Type 0 where
    pub reads :
        (size : ℕ) (s : FsClient S)
        → 0 < size
        → (n : ℕ) × ((fs.ext_read fd size s).0 ≡ pos n)
          × (n ≤ size)
          × (n ≤ length (upcoming s.server))
          × (n ≡ 0 → upcoming s.server ≡ [])
          × (upcoming (fs.ext_read fd size s).1.server ≡ drop n (upcoming s.server))
          × ((i : ℕ)
              → i < n
              → (fs.ext_read fd size s).1.memory (fs.ext_buf + i) ≡ get_or (upcoming s.server) i 0)
    pub keeps :
        (size a : ℕ) (s : FsClient S)
        → ¬ IsShared a
        → (fs.ext_read fd size s).1.memory a ≡ s.memory a

  -- From `s` to `t`, `m` bytes of the file are read to `dst`: `count` of them, or all that are left.
  pub record IsRead (upcoming : S → List ℕ) (dst count m : ℕ) (s t : FsClient S) : Type 0 where
    pub most : m ≤ count
    pub there : m ≤ length (upcoming s.server)
    pub whole : m < count → upcoming t.server ≡ []
    pub left : upcoming t.server ≡ drop m (upcoming s.server)
    pub bytes : (i : ℕ) → i < m → t.memory (dst + i) ≡ get_or (upcoming s.server) i 0

  -- A part of `n` bytes, and the rest.
  part_IsRead :
      (upcoming : S → List ℕ) (dst count n m : ℕ) (s t u : FsClient S)
      → n ≤ count
      → n ≤ length (upcoming s.server)
      → upcoming t.server ≡ drop n (upcoming s.server)
      → ((i : ℕ) → i < n → u.memory (dst + i) ≡ get_or (upcoming s.server) i 0)
      → IsRead upcoming (dst + n) (count - n) m t u
      → IsRead upcoming dst count (n + m) s u
  part_IsRead upcoming dst count n m s t u most there left bytes r = record {
    most = omega (arith, r.most);
    there = omega (arith, r.there, ap length left, length-drop n (upcoming s.server), there);
    whole = λ h. r.whole (omega arith);
    left = r.left ∙ ap (drop m) left ∙ drop-drop n m (upcoming s.server);
    bytes = λ i h. elim (Bool-cases (ltb i n)) [
      | inl e ↦ bytes i (ground (arith, e))
      | inr e ↦
          let past : n ≤ i = ground (arith, e) in
          let at_dst : dst + n + (i - n) ≡ dst + i = omega arith in
          let at_i : n + (i - n) ≡ i = omega arith in
          ap u.memory (sym at_dst)
          ∙ r.bytes (i - n) (omega arith)
          ∙ ap (λ (xs : List ℕ). get_or xs (i - n) 0) left
          ∙ get_or-drop n (i - n) (upcoming s.server) 0
          ∙ ap (λ (k : ℕ). get_or (upcoming s.server) k 0) at_i
    ];
  }

  -- A round that reads something.
  read_loop_more :
      (fuel : ℕ) (fd : ℤ) (buf total count remain : ℕ) (s : FsClient S)
      → ltb total count ≡ true
      → let (result, t) = fs.ext_read fd remain s in
        let n = pos_part result in
        (n == 0) ≡ false
        → read_loop fs (suc fuel) fd buf total count remain s
          ≡ read_loop fs fuel fd buf
              (total + n)
              count
              ((remain + 2 ^ 64 - n) % 2 ^ 64)
              (take_bytes fs (buf + total) n t)
  unfolding read_loop
  read_loop_more fuel fd buf total count remain s more z = rw (more, z, read_loop) refl

  read_loop-IsRead :
      (fd : ℤ) (upcoming : S → List ℕ) (IsShared : ℕ → Type 0)
      → IsFile fd upcoming IsShared
      → (fuel buf total count remain : ℕ) (s : FsClient S) → remain < fuel
      → total + remain ≡ count
      → count < 2 ^ 64
      → ((i : ℕ) → i < count → ¬ IsShared (buf + i))
      → (m : ℕ) × (t : FsClient S) × (read_loop fs fuel fd buf total count remain s
          ≡ some (total + m, t))
        × IsRead upcoming (buf + total) remain m s t
        × ((a : ℕ) → ¬ IsShared a → a < buf + total → t.memory a ≡ s.memory a)
  unfolding read_loop take_bytes
  read_loop-IsRead fd upcoming IsShared file zero buf total count remain s h sum small apart =
      absurd (omega arith)
  read_loop-IsRead fd upcoming IsShared file (suc fuel) buf total count zero s h sum small apart =
      let full : ltb total count ≡ false = ground (arith, sum) in
      (
        0,
        s,
        rw (full, read_loop) (ap (λ (k : ℕ). some (k, s)) (omega arith)),
        record {
          most = omega arith;
          there = omega arith;
          whole = λ w. absurd (omega arith);
          left = refl;
          bytes = λ i w. absurd (omega arith);
        },
        λ a w v. refl,
      )
  read_loop-IsRead fd upcoming IsShared file (suc fuel) buf total count (suc r) s h sum small
        apart =
      let more : ltb total count ≡ true = ground (arith, sum) in
      let (n, result, most, there, ended, left, bytes) = file.reads (suc r) s (omega arith) in
      let t = (fs.ext_read fd (suc r) s).1 in
      let read : pos_part (fs.ext_read fd (suc r) s).0 ≡ n = ap pos_part result in
      elim (Bool-cases (n == 0)) [
        | inl z ↦
            let none_read : n ≡ 0 = ground (arith, z) in
            (
              0,
              t,
              rw (more, read, z, read_loop) (ap (λ (k : ℕ). some (k, t)) (omega arith)),
              record {
                most = omega arith;
                there = omega arith;
                whole = λ w. left ∙ ap (drop n) (ended none_read) ∙ drop-nil n;
                left = left ∙ ap (λ (k : ℕ). drop k (upcoming s.server)) none_read;
                bytes = λ i w. absurd (omega arith);
              },
              λ a w v. file.keeps (suc r) a s w,
            )
        | inr z ↦
            let positive : 0 < n = ground (arith, z) in
            let t' = take_bytes fs (buf + total) n t in
            let rest : (suc r + 2 ^ 64 - n) % 2 ^ 64 ≡ suc r - n = omega arith in
            let (m, u, loop, read_rest, below) =
              read_loop-IsRead fd upcoming IsShared file fuel buf (total + n) count (suc r - n) t'
                (omega arith) (omega arith) small apart in
            let behind : buf + (total + n) ≡ buf + total + n = omega arith in
            let copied = λ (i : ℕ) (w : i < n).
              let here : buf + (total + i) ≡ buf + total + i = omega arith in
              below (buf + total + i)
                (subst (λ (k : ℕ). ¬ IsShared k) here (apart (total + i) (omega arith)))
                (omega arith)
              ∙ memcpy_lem (buf + total) fs.ext_buf n t.memory i w
              ∙ bytes i w in
            (
              n + m,
              u,
              read_loop_more fuel fd buf total count (suc r) s more
                    (ap (λ (k : ℕ). k == 0) read ∙ z)
                  ∙ ap
                      (λ (k : ℕ).
                        read_loop fs fuel fd buf (total + k) count ((suc r + 2 ^ 64 - k) % 2 ^ 64)
                          (take_bytes fs (buf + total) k t))
                      read
                  ∙ ap (λ (k : ℕ). read_loop fs fuel fd buf (total + n) count k t') rest
                  ∙ loop
                  ∙ ap (λ (k : ℕ). some (k, u)) (omega arith),
              part_IsRead upcoming (buf + total) (suc r) n m s t' u most there left copied
                  (subst (λ (k : ℕ). IsRead upcoming k (suc r - n) m t' u) behind read_rest),
              λ a w v.
                  below a w (omega arith)
                  ∙ memcpy_below (buf + total) fs.ext_buf n t.memory a v
                  ∙ file.keeps (suc r) a s w,
            )
      ]

  -- A read returns the bytes of the file from where it is read on, as many as are asked for or as are left, and
  -- they are at the buffer, however few bytes each call of the server gives; the loop ends. The
  -- buffer must lie outside the dataport.
  pub fileserver_read-IsRead :
      (fd : ℤ) (upcoming : S → List ℕ) (IsShared : ℕ → Type 0)
      → IsFile fd upcoming IsShared
      → (buf count : ℕ) (s : FsClient S) → count < 2 ^ 64
      → ((i : ℕ) → i < count → ¬ IsShared (buf + i))
      → (m : ℕ) × (t : FsClient S) × (fileserver_read fs fd buf count s ≡ some (m, t))
        × IsRead upcoming buf count m s t
  unfolding fileserver_read
  fileserver_read-IsRead fd upcoming IsShared file buf count s small apart =
      let (m, t, loop, r, below) =
        read_loop-IsRead fd upcoming IsShared file (count + 1) buf 0 count count s (omega arith)
          (omega arith) small apart in
      (
        m,
        t,
        loop ∙ ap (λ (k : ℕ). some (k, t)) (omega arith),
        subst (λ (k : ℕ). IsRead upcoming k count m s t) (omega arith) r,
      )
