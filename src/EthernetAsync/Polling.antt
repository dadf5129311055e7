-- ===== src/EthernetAsync/Polling.antt =====
-- remote-drivers/picotcp-ethernet-async/client.c: `pico_eth_poll` gives frames to the network stack.
use global_components.Prelude.{
  ℕ, ◌+◌, ◌≡◌, refl, ◌⊎◌, some, List, [], ◌∷◌, ◌++◌, map, length, true, false, ap, zero, suc, sym,
  ◌∙◌, inl, inr, arith, ◌==◌, Bool-cases, List-cases, map-snoc, ap₂, if◌then◌else◌,
}
use global_components.Prelude.Int.{pos}
use global_components.Virtqueue.{Contents, IsChannel, HasLengths}
use global_components.Ethdriver.State.{bytes}
use global_components.EthernetAsync.State.{Libs, Link, buf_size}
use mathlib.Core.List.{append_assoc, append-nil}
use global_components.EthernetAsync.Client.{
  is_mapped, is_positive, pico_free_buf, recycle, receive_frame, poll_loop, pico_eth_poll,
}

abbrev without_handle : ℕ × ℕ × ℕ → ℕ × ℕ
without_handle (h, b, len) = (b, len)

-- What is documented of the stack: it takes a frame exactly if its result is positive. `heard` is what
-- it has taken.
pub record IsStack {Q D K : Type 0} (lib : Libs Q D K) (heard : K → List (List ℕ)) : Type 0 where
  pub takes :
      (k : K) (mem : ℕ → ℕ) (a n : ℕ)
      → is_positive (lib.stack_recv k mem a n).0 ≡ true
      → heard (lib.stack_recv k mem a n).1 ≡ heard k ++ bytes mem a n ∷ []
  pub refuses :
      (k : K) (mem : ℕ → ℕ) (a n : ℕ)
      → is_positive (lib.stack_recv k mem a n).0 ≡ false
      → heard (lib.stack_recv k mem a n).1 ≡ heard k

module _ {Q D K : Type 0} (lib : Libs Q D K) (c : Contents Q) (lengths : Q → List ℕ)
    (heard : K → List (List ℕ)) where
  -- The buffers that are available in the ring for receiving, with their lengths.
  abbrev pub empty_bufs : Link Q D K → List (ℕ × ℕ)
  empty_bufs s = map without_handle (c.frames s.rx_virtqueue)

  -- A buffer as it is made available again.
  abbrev pub as_empty : ℕ × ℕ → ℕ × ℕ
  as_empty u = (lib.encode (lib.decode (u.1)), buf_size)

  -- The frame of `len` bytes in a buffer, if there is one.
  abbrev pub frame_in : (ℕ → ℕ) → ℕ → ℕ → List (List ℕ)
  frame_in mem b len = if len == 0 then [] else bytes mem (lib.decode b) len ∷ []

  -- The frames in the buffers, which have these lengths.
  abbrev pub frames_in : (ℕ → ℕ) → List (ℕ × ℕ) → List ℕ → List (List ℕ)
  frames_in mem [] ls = []
  frames_in mem (u ∷ us) [] = []
  frames_in mem (u ∷ us) (l ∷ ls) = frame_in mem (u.1) l ++ frames_in mem us ls

  -- With a score of `n`, from `s` to `t`, the first of the buffers that the server has filled are available
  -- again, in their order and each once, and the others are as before; `left` is what is left of the score.
  -- The stack has taken the frames in them, with their bytes, but for those of no length.
  pub record Polled (n left : ℕ) (s t : Link Q D K) : Type 0 where
    pub handled : List (ℕ × ℕ)
    pub lens : List ℕ
    pub measured : length lens ≡ length handled
    pub lengths_split : lengths s.rx_virtqueue ≡ lens ++ lengths t.rx_virtqueue
    pub given : heard t.stack ≡ heard s.stack ++ frames_in s.memory handled lens
    pub kept : t.memory ≡ s.memory
    pub split : c.returned s.rx_virtqueue ≡ handled ++ c.returned t.rx_virtqueue
    pub recycled : empty_bufs t ≡ empty_bufs s ++ map as_empty handled
    pub score : left + length handled ≡ n
    pub stopped :
        (c.returned t.rx_virtqueue ≡ [])
        ⊎ ((left ≡ 0)
            ⊎ ((h b : ℕ) × (us : List (ℕ × ℕ)) × (stack : K) × (len : ℕ) × (ls : List ℕ)
                × (c.returned t.rx_virtqueue ≡ (h, b) ∷ us)
                × (lengths t.rx_virtqueue ≡ len ∷ ls)
                × (heard stack ≡ heard t.stack)
                × (is_positive (lib.stack_recv stack t.memory (lib.decode b) len).0 ≡ false)))

  -- The stack sees neither the ring nor the mapper.
  receive_frame_lem :
      IsStack lib heard
      → (buf len : ℕ) (s : Link Q D K)
      → ((receive_frame lib buf len s).1.rx_virtqueue ≡ s.rx_virtqueue)
        × ((receive_frame lib buf len s).1.mapper ≡ s.mapper)
        × ((receive_frame lib buf len s).1.memory ≡ s.memory)
        × (heard (receive_frame lib buf len s).1.stack ≡ (
            if (receive_frame lib buf len s).0
            then heard s.stack ++ frame_in s.memory buf len
            else heard s.stack))
        × ((receive_frame lib buf len s).0 ≡ false
            → is_positive
                (lib.stack_recv s.stack
                  (receive_frame lib buf len s).1.memory
                  (lib.decode buf)
                  len).0
              ≡ false)
  unfolding receive_frame
  receive_frame_lem st buf len s = elim (Bool-cases (len == 0)) [
    | inl e ↦
        rw (e, receive_frame)
          (refl, refl, refl, sym (append-nil (heard s.stack)), λ w. absurd (ground arith))
    | inr e ↦
        let k = s.stack in
        let a = lib.decode buf in
        elim (Bool-cases (is_positive (lib.stack_recv k s.memory a len).0)) [
          | inl ok ↦
              rw (e, ok, receive_frame)
                (refl, refl, refl, st.takes k s.memory a len ok, λ w. absurd (ground arith))
          | inr refused ↦
              rw (e, refused, receive_frame)
                (refl, refl, refl, st.refuses k s.memory a len refused, λ w. refl)
        ]
  ]

  recycle_lem :
      IsChannel lib.vq lib.layout c
      → HasLengths lib.vq c lengths
      → (h b l : ℕ) (us : List (ℕ × ℕ)) (ls : List ℕ) (s : Link Q D K)
      → lengths s.rx_virtqueue ≡ l ∷ ls
      → c.returned s.rx_virtqueue ≡ (h, b) ∷ us
      → is_mapped s.mapper (lib.dataport_id (lib.decode b)) ≡ true
      → (t : Link Q D K) × (recycle lib b s ≡ some t)
        × (c.returned t.rx_virtqueue ≡ us)
        × (empty_bufs t ≡ empty_bufs s ++ as_empty (h, b) ∷ [])
        × (t.mapper ≡ s.mapper)
        × (t.memory ≡ s.memory)
        × (t.stack ≡ s.stack)
        × (lengths t.rx_virtqueue ≡ ls)
  unfolding recycle pico_free_buf
  recycle_lem ch hl h b len us ls s el e mapped =
      let (l, q, got, gone, frames, room, m, q2, gathered, gone2, frames2, room2) =
        ch.get_used s.rx_virtqueue h b us e in
      let (h', q', added, frames', used, left) =
        ch.add_available q (lib.encode (lib.decode b)) buf_size (omega (arith, room)) in
      (
        record s { rx_virtqueue = q' },
        rw (got, added, mapped, recycle, pico_free_buf) refl,
        used ∙ gone,
        ap (map without_handle) (
              frames'
              ∙ ap (λ (fs : List (ℕ × ℕ × ℕ)). fs ++ (h', lib.encode (lib.decode b), buf_size) ∷ [])
                  frames)
            ∙ map-snoc without_handle (c.frames s.rx_virtqueue)
                (h', lib.encode (lib.decode b), buf_size),
        refl,
        refl,
        refl,
        hl.added q q' (lib.encode (lib.decode b)) buf_size h' added
            ∙ hl.taken s.rx_virtqueue q h l len ls got el,
      )

  -- A round that stops.
  unchanged :
      (n : ℕ) (s t : Link Q D K)
      → c.returned t.rx_virtqueue ≡ c.returned s.rx_virtqueue
      → c.frames t.rx_virtqueue ≡ c.frames s.rx_virtqueue
      → lengths t.rx_virtqueue ≡ lengths s.rx_virtqueue
      → heard t.stack ≡ heard s.stack
      → t.memory ≡ s.memory
      → (c.returned s.rx_virtqueue ≡ [])
        ⊎ ((h b : ℕ) × (us : List (ℕ × ℕ)) × (stack : K) × (len : ℕ) × (ls : List ℕ) × (c.returned
                t.rx_virtqueue
              ≡ (h, b) ∷ us)
            × (lengths t.rx_virtqueue ≡ len ∷ ls)
            × (heard stack ≡ heard t.stack)
            × (is_positive (lib.stack_recv stack t.memory (lib.decode b) len).0 ≡ false))
      → Polled n n s t
  unchanged n s t r f ls told mem why = record {
    handled = [];
    lens = [];
    measured = refl;
    lengths_split = sym ls;
    given = told ∙ sym (append-nil _);
    kept = mem;
    split = sym r;
    recycled = ap (map without_handle) f ∙ sym (append-nil _);
    score = omega arith;
    stopped = elim why [ inl e ↦ inl (r ∙ e) | inr w ↦ inr (inr w) ];
  }

  -- A frame that is given to the stack, and those after it.
  then_Polled :
      (n left : ℕ) (f : ℕ × ℕ) (us : List (ℕ × ℕ)) (l : ℕ) (ls : List ℕ) (s t u : Link Q D K)
      → c.returned s.rx_virtqueue ≡ f ∷ us
      → c.returned t.rx_virtqueue ≡ us
      → empty_bufs t ≡ empty_bufs s ++ as_empty f ∷ []
      → lengths s.rx_virtqueue ≡ l ∷ ls
      → lengths t.rx_virtqueue ≡ ls
      → heard t.stack ≡ heard s.stack ++ frame_in s.memory (f.1) l
      → t.memory ≡ s.memory
      → Polled n left t u
      → Polled (suc n) left s u
  then_Polled n left f us l ls s t u e e' empties el el' told mem later = record {
    handled = f ∷ later.handled;
    lens = l ∷ later.lens;
    measured = ap suc later.measured;
    lengths_split = el ∙ ap (◌∷◌ l) (sym el' ∙ later.lengths_split);
    given =
        later.given
        ∙ ap₂ (λ (xs : List (List ℕ)) (m : ℕ → ℕ). xs ++ frames_in m later.handled later.lens) told
            mem
        ∙ append_assoc (heard s.stack) _ _;
    kept = later.kept ∙ mem;
    split = e ∙ ap (◌∷◌ f) (sym e' ∙ later.split);
    recycled =
        later.recycled
        ∙ ap (λ (es : List (ℕ × ℕ)). es ++ map as_empty later.handled) empties
        ∙ append_assoc (empty_bufs s) _ _;
    score = omega (arith, later.score);
    stopped = later.stopped;
  }

  poll_loop-Polled :
      IsChannel lib.vq lib.layout c
      → HasLengths lib.vq c lengths
      → IsStack lib heard
      → (n : ℕ) (s : Link Q D K)
      → ((a : ℕ) → is_mapped s.mapper (lib.dataport_id (lib.decode a)) ≡ true)
      → (left : ℕ) × (t : Link Q D K) × (poll_loop lib n s ≡ some (left, t)) × Polled n left s t
  unfolding poll_loop
  poll_loop-Polled ch hl st zero s mapped = (
    0,
    s,
    refl,
    record {
      handled = [];
      lens = [];
      measured = refl;
      lengths_split = refl;
      given = sym (append-nil _);
      kept = refl;
      split = refl;
      recycled = sym (append-nil _);
      score = omega arith;
      stopped = inr (inl refl);
    },
  )
  poll_loop-Polled ch hl st (suc n) s mapped = elim (List-cases (c.returned s.rx_virtqueue)) [
    | inl e ↦ (
      suc n,
      s,
      rw ((ch.used_none s.rx_virtqueue e).0, poll_loop) refl,
      unchanged (suc n) s s refl refl refl refl refl (inl e),
    )
    | inr ((h, b), us, e) ↦
        let (l, next) = ch.used_next s.rx_virtqueue h b us e in
        let (len, q, gathered, returned, frames) = ch.gather_used s.rx_virtqueue h b us e in
        let (ls, lens, lens') = hl.gathered s.rx_virtqueue q h b len us e gathered in
        let s' = record s { rx_virtqueue = q } in
        let (ok, t) = receive_frame lib b len s' in
        let (ring, map_same, mem, told, on_refused) = receive_frame_lem st b len s' in
        elim (Bool-cases ok) [
          | inr no_frame ↦ (
            suc n,
            t,
            rw (next, gathered, no_frame, poll_loop) refl,
            unchanged (suc n) s t (ap c.returned ring ∙ returned) (ap c.frames ring ∙ frames)
                (ap lengths ring ∙ lens') (rw no_frame at told) mem
                (inr (
                  h,
                  b,
                  us,
                  s'.stack,
                  len,
                  ls,
                  ap c.returned ring ∙ returned ∙ e,
                  ap lengths ring ∙ lens' ∙ lens,
                  sym (rw no_frame at told),
                  on_refused no_frame,
                )),
          )
          | inl given ↦
              let (u, again, gone, empties, kept_map, kept_mem, kept_stack, gone_len) =
                recycle_lem ch hl h b len us ls t (ap lengths ring ∙ lens' ∙ lens)
                  (ap c.returned ring ∙ returned ∙ e) (rw map_same (mapped b)) in
              let (left, v, loop, polled) =
                poll_loop-Polled ch hl st n u (λ a. rw (kept_map, map_same) (mapped a)) in
              (
                left,
                v,
                rw (next, gathered, given, again, poll_loop) loop,
                then_Polled n left (h, b) us len ls s u v e gone
                    (empties
                      ∙ ap
                          (λ (fs : List (ℕ × ℕ × ℕ)). map without_handle fs ++ as_empty (h, b) ∷ [])
                          (ap c.frames ring ∙ frames))
                    lens gone_len (ap heard kept_stack ∙ rw given at told) (kept_mem ∙ mem) polled,
              )
        ]
  ]

  -- A poll gives the frames that the server has received to the stack, in their order, each once and with its
  -- bytes, but for those of no length, and makes each of their
  -- buffers available again, none twice, until the score is used up, none is left, or the stack does
  -- not take a frame; that one stays in the ring with those behind it. The result is what is left of the
  -- score. The buffers must belong to a dataport in the mapper.
  pub pico_eth_poll-Polled :
      IsChannel lib.vq lib.layout c
      → HasLengths lib.vq c lengths
      → IsStack lib heard
      → (n : ℕ) (s : Link Q D K)
      → ((a : ℕ) → is_mapped s.mapper (lib.dataport_id (lib.decode a)) ≡ true)
      → (left : ℕ) × (t : Link Q D K) × (pico_eth_poll lib (pos n) s ≡ some (pos left, t))
        × Polled n left s t
  unfolding pico_eth_poll
  pico_eth_poll-Polled ch hl st n s mapped =
      let (left, t, loop, polled) = poll_loop-Polled ch hl st n s mapped in
      (left, t, rw (loop, pico_eth_poll) refl, polled)
