-- ===== src/EthernetAsync/Queueing.antt =====
-- remote-drivers/picotcp-ethernet-async/client.c: `pico_eth_send` puts frames into the ring.
use global_components.Prelude.Memory.{memcpy, memcpy_lem}
use global_components.Prelude.{
  ℕ, ◌+◌, ◌<◌, ◌≡◌, ◌⊎◌, some, List, [], ◌∷◌, ◌++◌, get_or, true, ◌-◌, refl, ap, ◌∙◌, inl, inr,
  arith, ◌==◌, Bool-cases, List-cases,
}
use global_components.Virtqueue.{Contents, IsChannel}
use global_components.EthernetAsync.State.{Libs, Link}
use global_components.EthernetAsync.Client.{take_tx_buf, queue_frame, pico_eth_send}

module _ {Q D K : Type 0} (lib : Libs Q D K) (c : Contents Q) where
  -- Where the buffer comes from, between `s` and `t`: it is the oldest that the server has used, or, if there
  -- is none, the last of those that are free.
  pub data Supply (s t : Link Q D K) (buf : ℕ) : Type 0 where
    was_used :
        (h b : ℕ) (us : List (ℕ × ℕ))
        → c.returned s.tx_virtqueue ≡ (h, b) ∷ us
        → buf ≡ lib.decode b
        → c.returned t.tx_virtqueue ≡ us
        → t.client.num_tx ≡ s.client.num_tx
        → Supply s t buf
    was_free :
        c.returned s.tx_virtqueue ≡ []
        → t.client.num_tx + 1 ≡ s.client.num_tx
        → buf ≡ get_or s.client.pending_tx t.client.num_tx 0
        → c.returned t.tx_virtqueue ≡ []
        → Supply s t buf

  -- The frame of `len` bytes at `input` is in the ring, in the buffer at `buf`, behind those that were.
  pub record Queued (s t : Link Q D K) (input len buf : ℕ) : Type 0 where
    pub supply : Supply s t buf
    pub handle : ℕ
    pub frame :
        c.frames t.tx_virtqueue ≡ c.frames s.tx_virtqueue ++ (handle, lib.encode buf, len) ∷ []
    pub bytes : (i : ℕ) → i < len → t.memory (buf + i) ≡ s.memory (input + i)
    pub notifies : t.client.action ≡ true
    pub same_driver : t.driver ≡ s.driver

  Supply-same :
      (s u t : Link Q D K) (buf : ℕ)
      → c.returned t.tx_virtqueue ≡ c.returned u.tx_virtqueue
      → t.client.num_tx ≡ u.client.num_tx
      → Supply s u buf
      → Supply s t buf
  Supply-same s u t buf r n (was_used h b us e d left same) =
      was_used h b us e d (r ∙ left) (n ∙ same)
  Supply-same s u t buf r n (was_free e fewer at' left) =
      was_free e (omega (arith, n, fewer)) (rw n at') (r ∙ left)

  queue_frame-Queued :
      IsChannel lib.vq lib.layout c
      → (input len buf : ℕ) (s u : Link Q D K) → Supply s u buf
      → 0 < c.room u.tx_virtqueue
      → c.frames u.tx_virtqueue ≡ c.frames s.tx_virtqueue
      → u.memory ≡ s.memory
      → u.driver ≡ s.driver
      → (t : Link Q D K) × (queue_frame lib buf input len u ≡ some (len, t))
        × Queued s t input len buf
  unfolding queue_frame
  queue_frame-Queued ch input len buf s u supply room same mem dr =
      let (h, q, added, frames, used, left) =
        ch.add_available u.tx_virtqueue (lib.encode buf) len room in
      (
        record u {
          tx_virtqueue = q;
          memory = memcpy buf input len u.memory;
          client = record (u.client) { action = true };
        },
        rw (added, queue_frame) refl,
        record {
          supply = Supply-same s u _ buf used refl supply;
          handle = h;
          frame = frames ∙ ap (λ (fs : List (ℕ × ℕ × ℕ)). fs ++ (h, lib.encode buf, len) ∷ []) same;
          bytes = λ i hi.
              memcpy_lem buf input len u.memory i hi ∙ ap (λ (m : ℕ → ℕ). m (input + i)) mem;
          notifies = refl;
          same_driver = dr;
        },
      )

  -- A frame is sent by putting it behind those in the ring, in the oldest buffer that the server has used or,
  -- if there is none, in a free one; the buffer has the bytes of the frame, and the server will be
  -- notified. Only if there is neither, nothing changes, and the result is 0. The ring must have room for a
  -- buffer that does not come from it.
  pub pico_eth_send-Queued :
      IsChannel lib.vq lib.layout c
      → (input len : ℕ) (s : Link Q D K)
      → (c.returned s.tx_virtqueue ≡ [] → 0 < c.room s.tx_virtqueue)
      → ((pico_eth_send lib input len s ≡ some (0, s))
          × (c.returned s.tx_virtqueue ≡ [])
          × (s.client.num_tx ≡ 0))
        ⊎ ((t : Link Q D K) × (buf : ℕ) × (pico_eth_send lib input len s ≡ some (len, t))
            × Queued s t input len buf)
  unfolding pico_eth_send take_tx_buf
  pico_eth_send-Queued ch input len s room = elim (List-cases (c.returned s.tx_virtqueue)) [
    | inl e ↦
        let none_used = (ch.used_none s.tx_virtqueue e).1 in
        elim (Bool-cases (s.client.num_tx == 0)) [
          | inl z ↦ inl (rw (none_used, z, take_tx_buf, pico_eth_send) refl, e, ground (arith, z))
          | inr z ↦
              let u = record s { client = record (s.client) { num_tx = s.client.num_tx - 1 } } in
              let buf = get_or s.client.pending_tx (s.client.num_tx - 1) 0 in
              let positive : 0 < s.client.num_tx = ground (arith, z) in
              let (t, queued, r) =
                queue_frame-Queued ch input len buf s u (was_free e (omega arith) refl e) (room e)
                  refl refl refl in
              inr (t, buf, rw (none_used, z, take_tx_buf, pico_eth_send) queued, r)
        ]
    | inr ((h, b), us, e) ↦
        let (l, q, got, gone, frames, room', m, q', gathered, gone', frames', room'') =
          ch.get_used s.tx_virtqueue h b us e in
        let u = record s { tx_virtqueue = q' } in
        let (t, queued, r) =
          queue_frame-Queued ch input len (lib.decode b) s u (was_used h b us e refl gone' refl)
            (omega (arith, room'')) frames' refl refl in
        inr (t, lib.decode b, rw (got, gathered, take_tx_buf, pico_eth_send) queued, r)
  ]
