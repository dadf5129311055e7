-- ===== src/EthInterface/Receiving.antt =====
-- components/PicoServer/src/eth_interface.c: `pico_eth_poll` gives the frames that wait to the network stack.
use global_components.Prelude.Int.{negsuc, pos, same_ℤ, ℤ}
use global_components.Ethdriver.Lookup.{eth_get_client_lt}
use global_components.Ethdriver.Fifo.{pending_at, more, take_frame-Collected, not_empty}
use global_components.Prelude.{
  ℕ, zero, suc, ◌+◌, ◌<◌, ◌≡◌, ◌≢◌, refl, some, List, [], ◌∷◌, arith, length, get_or, set,
  get_or-set_self, true, false, ◌%◌, ap, Option, none, ◌==◌, if◌then◌else◌, sym, ap₂, ◌∙◌, ◌⊎◌,
  ◌++◌, map, inl, inr, subst,
}
use global_components.Prelude.Memory.{memcpy_below}
use global_components.Ethdriver.State.{
  Client, Ethdriver, bytes, client_at, null_client, RxFrame, rx_buf_at, EthBuf, null_buf,
}
use global_components.Ethdriver.Filter.{get_client_from, eth_get_client}
use global_components.Ethdriver.Rx.{take_frame, return_buf, client_rx}
use global_components.Ethdriver.Queue.{IsQueue, pending, length-pending}
use mathlib.Core.List.{append_assoc, append-nil}
use global_components.EthInterface.Device.{Libs, PicoServer, give_frame, poll_loop, pico_eth_poll}

bytes_same :
    (m m' : ℕ → ℕ) (a b n : ℕ)
    → ((k : ℕ) → k < n → m (a + k) ≡ m' (b + k))
    → bytes m a n ≡ bytes m' b n
unfolding bytes
bytes_same m m' a b zero h = refl
bytes_same m m' a b (suc n) h =
    let moved = λ (k : ℕ).
      let e : a + 1 + k ≡ a + (k + 1) = omega arith in
      let e' : b + 1 + k ≡ b + (k + 1) = omega arith in
      λ (w : k < n). ap m e ∙ h (k + 1) (omega arith) ∙ sym (ap m' e') in
    let z : a + 0 ≡ a = omega arith in
    let z' : b + 0 ≡ b = omega arith in
    ap₂ (◌∷◌) (sym (ap m z) ∙ h 0 (omega arith) ∙ ap m' z')
      (bytes_same m m' (a + 1) (b + 1) n moved)

get_client_from-set :
    (id k i : ℕ) (cs : List Client) (c : Client) (acc : Option ℕ)
    → c.client_id ≡ (get_or cs i null_client).client_id
    → get_client_from id k (set cs i c) acc ≡ get_client_from id k cs acc
unfolding get_client_from
get_client_from-set id k i [] c acc e = refl
get_client_from-set id k zero (x ∷ cs) c acc e =
    ap (λ (j : ℕ). get_client_from id (k + 1) cs (if j == id then some k else acc)) e
get_client_from-set id k (suc i) (x ∷ cs) c acc e =
    get_client_from-set id (k + 1) i cs c (if x.client_id == id then some k else acc) e

-- What the driver keeps when client `i` collects a frame.
record Next (s t : Ethdriver) (i : ℕ) : Type 0 where
  queue : IsQueue (client_at t i)
  dataport : (client_at t i).dataport ≡ (client_at s i).dataport
  init : t.done_init ≡ s.done_init
  found : (id : ℕ) → eth_get_client id t ≡ eth_get_client id s
  bufs : t.rx_bufs ≡ s.rx_bufs
  below : (a : ℕ) → a < (client_at s i).dataport → t.mem a ≡ s.mem a

take_frame-Next :
    (s : Ethdriver) (i : ℕ)
    → i < length s.clients
    → IsQueue (client_at s i)
    → (client_at s i).pending_rx_head ≢ (client_at s i).pending_rx_tail
    → Next s (take_frame s i).state i
unfolding take_frame return_buf eth_get_client
take_frame-Next s i hi q ne =
    let c = client_at s i in
    let tail = (c.pending_rx_tail + 1) % 128 in
    let drained = tail == c.pending_rx_head in
    let c' : Client = record c {
      pending_rx_tail = tail;
      should_notify = if drained then true else c.should_notify;
    } in
    let some_left : (c.pending_rx_head == c.pending_rx_tail) ≡ false = ground (arith, ne) in
    let here = get_or-set_self s.clients i c' null_client hi in
    let queue : IsQueue c' = record {
      room = q.room;
      head_in = q.head_in;
      tail_in = omega arith;
      awake = λ e. ground (arith, e);
    } in
    rw some_left (record {
      queue = rw here queue;
      dataport = ap (λ (d : Client). d.dataport) here;
      init = refl;
      found = λ id. get_client_from-set id 0 i s.clients c' none refl;
      bufs = refl;
      below = λ a h. memcpy_below c.dataport _ _ s.mem a h;
    })

-- The bytes of a frame that waits.
abbrev pub frame_bytes : Ethdriver → RxFrame → List ℕ
frame_bytes s f = bytes s.mem (rx_buf_at s f.buf).buf f.len

-- The frames lie below the address `d`.
abbrev pub AreBelow : Ethdriver → ℕ → List RxFrame → Type 0
AreBelow s d [] = Unit {0}
AreBelow s d (f ∷ fs) = ((k : ℕ) → k < f.len → (rx_buf_at s f.buf).buf + k < d) × AreBelow s d fs

frames_kept :
    (s t : Ethdriver) (i : ℕ) (fs : List RxFrame)
    → Next s t i
    → AreBelow s (client_at s i).dataport fs
    → (map (frame_bytes t) fs ≡ map (frame_bytes s) fs) × AreBelow t (client_at t i).dataport fs
frames_kept s t i [] n b = (refl, tt)
frames_kept s t i (f ∷ fs) n b =
    let (same, below) = frames_kept s t i fs n b.1 in
    let at_buf : (rx_buf_at t f.buf).buf ≡ (rx_buf_at s f.buf).buf =
      ap (λ (bs : List EthBuf). (get_or bs f.buf null_buf).buf) n.bufs in
    (
      ap₂ (◌∷◌)
          (bytes_same t.mem s.mem _ _ f.len
            (λ k w. ap (λ (a : ℕ). t.mem (a + k)) at_buf ∙ n.below _ (b.0 k w)))
          same,
      (λ k w. rw (at_buf, n.dataport) (b.0 k w), below),
    )

map_prefix :
    {A B : Type 0} (g g' : A → B) (xs ys : List A)
    → map g (xs ++ ys) ≡ map g' (xs ++ ys)
    → map g xs ≡ map g' xs
map_prefix g g' [] ys e = refl
map_prefix g g' (x ∷ xs) ys e =
    let head : g x ≡ g' x = cc in
    let tail : map g (xs ++ ys) ≡ map g' (xs ++ ys) = cc in
    ap₂ (◌∷◌) head (map_prefix g g' xs ys tail)

empty_queue : (c : Client) → IsQueue c → pending c ≡ [] → c.pending_rx_head ≡ c.pending_rx_tail
empty_queue c q e = ground (arith, ap length e, length-pending c, q)

module _ {K : Type 0} (lib : Libs K) where
  -- The component is the client that has the frames `fs`, which lie below its buffer.
  pub record Ready (s : Ethdriver) (fs : List RxFrame) : Type 0 where
    pub init : s.done_init ≡ true
    pub found : eth_get_client lib.badge s ≡ some lib.index
    pub queue : IsQueue (client_at s lib.index)
    pub waits : pending_at s lib.index ≡ fs
    pub below : AreBelow s (client_at s lib.index).dataport fs

  -- From `s` to `t`, with a score of `n` of which `left` is left, the first frames are given to the stack, in
  -- their order, each once and with its bytes, and the others still wait.
  pub record Received (heard : K → List (List ℕ)) (n left : ℕ) (s t : PicoServer K) : Type 0 where
    pub handled : List RxFrame
    pub rest : List RxFrame
    pub split : pending_at s.ethdriver lib.index ≡ handled ++ rest
    pub waits : pending_at t.ethdriver lib.index ≡ rest
    pub given : heard t.stack ≡ heard s.stack ++ map (frame_bytes s.ethdriver) handled
    pub score : left + length handled ≡ n
    pub stopped : (rest ≡ []) ⊎ (left ≡ 0)

  -- One call of the driver with a frame that waits.
  collect :
      (heard : K → List (List ℕ))
      → ((k : K) (mem : ℕ → ℕ) (a n : ℕ)
          → heard (lib.stack_recv k mem a n) ≡ heard k ++ bytes mem a n ∷ [])
      → (s : PicoServer K) (f : RxFrame) (rest : List RxFrame) → Ready s.ethdriver (f ∷ rest)
      → let r = take_frame s.ethdriver lib.index in
        let t = give_frame lib r s in
        (client_rx lib.badge s.ethdriver ≡ some r)
        × (r.ret ≡ more rest)
        × Ready t.ethdriver rest
        × (heard t.stack ≡ heard s.stack ++ frame_bytes s.ethdriver f ∷ [])
        × (map (frame_bytes t.ethdriver) rest ≡ map (frame_bytes s.ethdriver) rest)
  unfolding client_rx give_frame
  collect heard hears s f rest h =
      let d = s.ethdriver in
      let i = lib.index in
      let hi = eth_get_client_lt lib.badge d i h.found in
      let got = take_frame-Collected d i f rest hi h.queue h.waits in
      let next = take_frame-Next d i hi h.queue (not_empty d i f rest hi h.queue h.waits) in
      let started = h.init in
      let found = h.found in
      let (same, below) = frames_kept d (take_frame d i).state i rest next h.below.1 in
      (
        simp (started, found),
        got.ret,
        record {
          init = next.init ∙ h.init;
          found = next.found lib.badge ∙ h.found;
          queue = next.queue;
          waits = got.left;
          below = below;
        },
        rw got.len (
            hears s.stack (take_frame d i).state.mem (client_at (take_frame d i).state i).dataport
              f.len
            ∙ ap (λ (bs : List ℕ). heard s.stack ++ bs ∷ [])
                (bytes_same (take_frame d i).state.mem d.mem _ _ f.len (λ k w.
                  ap (λ (a : ℕ). (take_frame d i).state.mem (a + k)) next.dataport
                  ∙ got.copied k w))),
        same,
      )

  collect_none :
      (d : Ethdriver)
      → Ready d []
      → let r = take_frame d lib.index in
        (client_rx lib.badge d ≡ some r) × (r.ret ≡ negsuc 0) × (pending_at r.state lib.index ≡ [])
  unfolding client_rx take_frame
  collect_none d h =
      let started = h.init in
      let found = h.found in
      let i = lib.index in
      let hi = eth_get_client_lt lib.badge d i h.found in
      let c = client_at d i in
      let none_left : (c.pending_rx_head == c.pending_rx_tail) ≡ true =
        ground (arith, empty_queue c h.queue h.waits) in
      (
        simp (started, found),
        rw none_left refl,
        rw none_left (ap pending (get_or-set_self d.clients i _ null_client hi) ∙ h.waits),
      )

  poll_loop-Received :
      (heard : K → List (List ℕ))
      → ((k : K) (mem : ℕ → ℕ) (a n : ℕ)
          → heard (lib.stack_recv k mem a n) ≡ heard k ++ bytes mem a n ∷ [])
      → (n : ℕ) (s : PicoServer K) (fs : List RxFrame) → Ready s.ethdriver fs
      → (left : ℕ) × (t : PicoServer K) × (poll_loop lib n s ≡ some (left, t))
        × Received heard n left s t
  unfolding poll_loop
  poll_loop-Received heard hears zero s fs h = (
    0,
    s,
    refl,
    record {
      handled = [];
      rest = fs;
      split = h.waits;
      waits = h.waits;
      given = sym (append-nil _);
      score = refl;
      stopped = inr refl;
    },
  )
  poll_loop-Received heard hears (suc n) s [] h =
      let d = s.ethdriver in
      let r = take_frame d lib.index in
      let (called, ret, waits) = collect_none d h in
      let empty : same_ℤ r.ret (negsuc 0) ≡ true = ap (λ (x : ℤ). same_ℤ x (negsuc 0)) ret in
      (
        suc n,
        record s { ethdriver = r.state },
        rw (called, empty, poll_loop) refl,
        record {
          handled = [];
          rest = [];
          split = h.waits;
          waits = waits;
          given = sym (append-nil _);
          score = omega arith;
          stopped = inl refl;
        },
      )
  poll_loop-Received heard hears (suc n) s (f ∷ []) h =
      let (called, ret, ready, given, same) = collect heard hears s f [] h in
      let r' = take_frame s.ethdriver lib.index in
      let full : same_ℤ r'.ret (negsuc 0) ≡ false = ap (λ (x : ℤ). same_ℤ x (negsuc 0)) ret in
      let last : same_ℤ r'.ret (pos 0) ≡ true = ap (λ (x : ℤ). same_ℤ x (pos 0)) ret in
      (
        n,
        give_frame lib (take_frame s.ethdriver lib.index) s,
        rw (called, full, last, poll_loop) refl,
        record {
          handled = f ∷ [];
          rest = [];
          split = h.waits;
          waits = ready.waits;
          given = given;
          score = omega arith;
          stopped = inl refl;
        },
      )
  poll_loop-Received heard hears (suc n) s (f ∷ g ∷ fs) h =
      let (called, ret, ready, given, same) = collect heard hears s f (g ∷ fs) h in
      let r' = take_frame s.ethdriver lib.index in
      let full : same_ℤ r'.ret (negsuc 0) ≡ false = ap (λ (x : ℤ). same_ℤ x (negsuc 0)) ret in
      let last : same_ℤ r'.ret (pos 0) ≡ false = ap (λ (x : ℤ). same_ℤ x (pos 0)) ret in
      let t = give_frame lib (take_frame s.ethdriver lib.index) s in
      let (left, u, loop, r) = poll_loop-Received heard hears n t (g ∷ fs) ready in
      (
        left,
        u,
        rw (called, full, last, poll_loop) loop,
        record {
          handled = f ∷ r.handled;
          rest = r.rest;
          split = h.waits ∙ ap (◌∷◌ f) (sym ready.waits ∙ r.split);
          waits = r.waits;
          given =
              r.given
              ∙ ap₂ (◌++◌) given (
                  map_prefix (frame_bytes t.ethdriver) (frame_bytes s.ethdriver) r.handled r.rest (
                    subst
                      (λ (xs : List RxFrame).
                        map (frame_bytes t.ethdriver) xs ≡ map (frame_bytes s.ethdriver) xs)
                      (sym ready.waits ∙ r.split) same))
              ∙ append_assoc (heard s.stack) _ _;
          score = omega (arith, r.score);
          stopped = r.stopped;
        },
      )

  -- A poll gives the stack the frames that wait for the component at the driver, in their order, each once and
  -- with its bytes, until none waits or the score is used up, and the others still wait. The result
  -- is what is left of the score. The frames lie below the component's buffer, and the stack only
  -- reads that.
  pub pico_eth_poll-Received :
      (heard : K → List (List ℕ))
      → ((k : K) (mem : ℕ → ℕ) (a n : ℕ)
          → heard (lib.stack_recv k mem a n) ≡ heard k ++ bytes mem a n ∷ [])
      → (n : ℕ) (s : PicoServer K) (fs : List RxFrame) → Ready s.ethdriver fs
      → (left : ℕ) × (t : PicoServer K) × (pico_eth_poll lib (pos n) s ≡ some (pos left, t))
        × Received heard n left s t
  unfolding pico_eth_poll
  pico_eth_poll-Received heard hears n s fs h =
      let (left, t, loop, r) = poll_loop-Received heard hears n s fs h in
      (left, t, rw (loop, pico_eth_poll) refl, r)
