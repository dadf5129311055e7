-- ===== src/Virtqueue.antt =====
-- The rings of buffers that two components share (the library virtqueue.h), as the servers and their
-- clients use them.
use global_components.Prelude.{
  ℕ, ◌≡◌, Option, none, some, List, [], ◌∷◌, ◌++◌, ◌+◌, ◌%◌, ◌<◌, ◌==◌, if◌then◌else◌, map,
}

-- One ring over its state `Q`. A buffer in the ring is known by its handle, the field `first` of a
-- ring object. The device takes the handles that the driver made available, and returns them as used
-- with a length; the driver takes those. `gather` gives the buffer of a handle and its length. `avail`
-- and `used` are what waits in the two directions, the oldest first.
pub record Virtqueue (Q : Type 0) : Type 0 where
  pub get_available_buf : Q → Option (ℕ × Q)
  pub gather_available : Q → ℕ → Option (ℕ × ℕ)
  pub add_used_buf : Q → ℕ → ℕ → Option Q
  pub get_used_buf : Q → Option (ℕ × ℕ × Q)
  pub gather_used : Q → ℕ → Option (ℕ × ℕ × Q)
  pub add_available_buf : Q → ℕ → ℕ → Option (ℕ × Q)
  pub avail : Q → List ℕ
  pub used : Q → List (ℕ × ℕ)

-- What the library documents of the device's side: the handles come in the order in which they were
-- made available, and a used ring has an entry for each of them.
pub record IsDevice {Q : Type 0} (vq : Virtqueue Q) : Type 0 where
  pub get_none : (q : Q) → vq.avail q ≡ [] → vq.get_available_buf q ≡ none
  pub get_first :
      (q : Q) (h : ℕ) (hs : List ℕ)
      → vq.avail q ≡ h ∷ hs
      → (t : Q) × (vq.get_available_buf q ≡ some (h, t))
        × (vq.avail t ≡ hs)
        × (vq.used t ≡ vq.used q)
  pub add_used :
      (q : Q) (h len : ℕ)
      → (t : Q) × (vq.add_used_buf q h len ≡ some t)
        × (vq.avail t ≡ vq.avail q)
        × (vq.used t ≡ vq.used q ++ (h, len) ∷ [])

-- The indices and arrays of a ring that its two sides read, the latter by index. A used entry has a handle
-- and a length.
pub record Layout (Q : Type 0) : Type 0 where
  pub queue_len : Q → ℕ
  pub a_ring_last_seen : Q → ℕ
  pub avail_idx : Q → ℕ
  pub avail_ring : Q → ℕ → ℕ
  pub u_ring_last_seen : Q → ℕ
  pub used_idx : Q → ℕ
  pub used_ring : Q → ℕ → ℕ × ℕ

-- What a ring holds: the buffers that are available, each with its handle and its length, and those that
-- are used, with their handles, the oldest first; and for how many more there is room.
pub record Contents (Q : Type 0) : Type 0 where
  pub frames : Q → List (ℕ × ℕ × ℕ)
  pub returned : Q → List (ℕ × ℕ)
  pub room : Q → ℕ

module _ {Q : Type 0} (layout : Layout Q) where
  -- The handle that comes next on the device's side, without taking it; none where the ring is empty.
  -- `& (queue_len - 1)` is the remainder, as the length is a power of two.
  unfoldable pub next_available : Q → Option ℕ
  next_available q =
      let next = (layout.a_ring_last_seen q + 1) % layout.queue_len q in
      if next == layout.avail_idx q then none else some (layout.avail_ring q next)

  -- The same on the driver's side.
  unfoldable pub next_used : Q → Option (ℕ × ℕ)
  next_used q =
      let next = (layout.u_ring_last_seen q + 1) % layout.queue_len q in
      if next == layout.used_idx q then none else some (layout.used_ring q next)

-- What the library documents of both sides. A handle that has been taken back makes room for another.
pub record IsChannel {Q : Type 0} (vq : Virtqueue Q) (layout : Layout Q) (c : Contents Q)
    : Type 0 where
  pub handles : (q : Q) → vq.avail q ≡ map (λ f. f.0) (c.frames q)
  pub next_none : (q : Q) → c.frames q ≡ [] → next_available layout q ≡ none
  pub next_first :
      (q : Q) (h b l : ℕ) (fs : List (ℕ × ℕ × ℕ))
      → c.frames q ≡ (h, b, l) ∷ fs
      → (next_available layout q ≡ some h)
        × (vq.gather_available q h ≡ some (b, l))
        × (t : Q) × (vq.get_available_buf q ≡ some (h, t))
        × (c.frames t ≡ fs)
        × (c.returned t ≡ c.returned q)
  pub used_none :
      (q : Q) → c.returned q ≡ [] → (next_used layout q ≡ none) × (vq.get_used_buf q ≡ none)
  pub used_next :
      (q : Q) (h b : ℕ) (us : List (ℕ × ℕ))
      → c.returned q ≡ (h, b) ∷ us
      → (l : ℕ) × (next_used layout q ≡ some (h, l))
  pub gather_used :
      (q : Q) (h b : ℕ) (us : List (ℕ × ℕ))
      → c.returned q ≡ (h, b) ∷ us
      → (l : ℕ) × (t : Q) × (vq.gather_used q h ≡ some (b, l, t))
        × (c.returned t ≡ c.returned q)
        × (c.frames t ≡ c.frames q)
  pub get_used :
      (q : Q) (h b : ℕ) (us : List (ℕ × ℕ))
      → c.returned q ≡ (h, b) ∷ us
      → (l : ℕ) × (t : Q) × (vq.get_used_buf q ≡ some (h, l, t))
        × (c.returned t ≡ us)
        × (c.frames t ≡ c.frames q)
        × (c.room t ≡ c.room q + 1)
        × (m : ℕ) × (u : Q) × (vq.gather_used t h ≡ some (b, m, u))
        × (c.returned u ≡ us)
        × (c.frames u ≡ c.frames q)
        × (c.room u ≡ c.room q + 1)
  pub add_available :
      (q : Q) (b l : ℕ)
      → 0 < c.room q
      → (h : ℕ) × (t : Q) × (vq.add_available_buf q b l ≡ some (h, t))
        × (c.frames t ≡ c.frames q ++ (h, b, l) ∷ [])
        × (c.returned t ≡ c.returned q)
        × (c.room t + 1 ≡ c.room q)

-- What the library documents of the lengths of the used buffers, the oldest first: the driver's side is
-- given the length of the buffer whose handle it looks up, and only taking a handle changes them.
pub record HasLengths {Q : Type 0} (vq : Virtqueue Q) (c : Contents Q) (lengths : Q → List ℕ)
    : Type 0 where
  pub gathered :
      (q t : Q) (h b l : ℕ) (us : List (ℕ × ℕ))
      → c.returned q ≡ (h, b) ∷ us
      → vq.gather_used q h ≡ some (b, l, t)
      → (ls : List ℕ) × (lengths q ≡ l ∷ ls) × (lengths t ≡ lengths q)
  pub taken :
      (q t : Q) (h l m : ℕ) (ms : List ℕ)
      → vq.get_used_buf q ≡ some (h, l, t)
      → lengths q ≡ m ∷ ms
      → lengths t ≡ ms
  pub added :
      (q t : Q) (b l h : ℕ) → vq.add_available_buf q b l ≡ some (h, t) → lengths t ≡ lengths q
