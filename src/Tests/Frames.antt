-- ===== src/Tests/Frames.antt =====
-- The Ethernet link, with lists as rings, and a driver that has room for a number of frames.
use global_components.EthernetAsync.Polling.{Polled, IsStack, pico_eth_poll-Polled}
use global_components.EthernetAsync.Delivery.{Delivered, pico_eth_send-Delivered}
use global_components.Prelude.Int.{pos}
use global_components.EthernetAsync.Transmitting.{IsDriver, Sent, virt_queue_handle_irq-Sent}
use global_components.EthernetAsync.Server.{virt_queue_handle_irq}
use global_components.EthernetAsync.State.{Libs, Link}
use global_components.Ethdriver.State.{bytes}
use global_components.EthernetAsync.Client.{pico_eth_send, is_mapped, pico_eth_poll}
use global_components.Prelude.{
  ℕ, ◌+◌, ◌-◌, ◌≡◌, refl, none, some, List, [], ◌∷◌, ◌++◌, map, ◌==◌, if◌then◌else◌, sym, ap, ◌∙◌,
  arith, zero, suc, ◌%◌, ◌<◌, Bool, true, false, replicate, inl, inr, ◌||◌, Bool-cases, length,
}
use global_components.Virtqueue.{
  Virtqueue, Layout, Contents, IsChannel, HasLengths, next_available, next_used,
}

-- A handle is the address of its buffer.
record Channel : Type 0 where
  ready : List (ℕ × ℕ × ℕ)
  finished : List ℕ
  spare : ℕ

abbrev channels : Virtqueue Channel
channels = record {
  get_available_buf =
      λ q. elim q.ready [ [] ↦ none | f ∷ fs ↦ some (f.0, record q { ready = fs }) ];
  gather_available = λ q h. elim q.ready [ [] ↦ none | f ∷ fs ↦ some (f.1, f.2) ];
  add_used_buf = λ q h len. some (record q { finished = q.finished ++ h ∷ [] });
  get_used_buf = λ q. elim q.finished [
    | [] ↦ none
    | h ∷ hs ↦ some (h, 60, record q { finished = hs; spare = q.spare + 1 })
  ];
  gather_used = λ q h. some (h, 60, q);
  add_available_buf = λ q b len.
      if q.spare == 0
      then none
      else some (b, record q { ready = q.ready ++ (b, b, len) ∷ []; spare = q.spare - 1 });
  avail = λ q. map (λ f. f.0) q.ready;
  used = λ q. map (λ h. (h, 60)) q.finished;
}

abbrev layout : Layout Channel
layout = record {
  queue_len = λ q. 256;
  a_ring_last_seen = λ q. 0;
  avail_idx = λ q. elim q.ready [ [] ↦ 1 | f ∷ fs ↦ 0 ];
  avail_ring = λ q i. elim q.ready [ [] ↦ 0 | f ∷ fs ↦ f.0 ];
  u_ring_last_seen = λ q. 0;
  used_idx = λ q. elim q.finished [ [] ↦ 1 | h ∷ hs ↦ 0 ];
  used_ring = λ q i. elim q.finished [ [] ↦ (0, 0) | h ∷ hs ↦ (h, 60) ];
}

abbrev twice : ℕ → ℕ × ℕ
twice h = (h, h)

abbrev contents : Contents Channel
contents = record {
  frames = λ q. q.ready;
  returned = λ q. map twice q.finished;
  room = λ q. q.spare;
}

first_twice :
    (hs : List ℕ) (h b : ℕ) (us : List (ℕ × ℕ))
    → map twice hs ≡ (h, b) ∷ us
    → (ks : List ℕ) × (hs ≡ h ∷ ks) × (b ≡ h) × (map twice ks ≡ us)
first_twice [] h b us e = absurd cc
first_twice (x ∷ ks) h b us e =
    let p : twice x ≡ (h, b) = cc in
    let same : x ≡ h = ap (λ (r : ℕ × ℕ). r.0) p in
    let other : x ≡ b = ap (λ (r : ℕ × ℕ). r.1) p in
    let rest : map twice ks ≡ us = cc in (ks, ap (λ (y : ℕ). y ∷ ks) same, sym other ∙ same, rest)

none_twice : (hs : List ℕ) → map twice hs ≡ [] → hs ≡ []
none_twice [] e = refl
none_twice (x ∷ hs) e = absurd cc

channels-IsChannel : IsChannel channels layout contents
unfolding next_available next_used
channels-IsChannel = record {
  handles = λ q. refl;
  next_none = λ q e. rw e refl;
  next_first =
      λ q h b l fs e. (rw e refl, rw e refl, record q { ready = fs }, rw e refl, refl, refl);
  used_none = λ q e. let n = none_twice q.finished e in (rw n refl, rw n refl);
  used_next =
      λ q h b us e. let (ks, n, same, rest) = first_twice q.finished h b us e in (60, rw n refl);
  gather_used = λ q h b us e.
      let (ks, n, same, rest) = first_twice q.finished h b us e in
      (60, q, rw same refl, refl, refl);
  get_used = λ q h b us e.
      let (ks, n, same, rest) = first_twice q.finished h b us e in
      let t = record q { finished = ks; spare = q.spare + 1 } in
      (60, t, rw n refl, rest, refl, refl, 60, t, rw same refl, rest, refl, refl);
  add_available = λ q b l room. (
    b,
    record q { ready = q.ready ++ (b, b, l) ∷ []; spare = q.spare - 1 },
    ground (arith, room),
    refl,
    refl,
    omega arith,
  );
}

taken_length :
    (q t : Channel) (h l m : ℕ) (ms : List ℕ)
    → channels.get_used_buf q ≡ some (h, l, t)
    → map (λ k. 60) q.finished ≡ m ∷ ms
    → (hs : List ℕ) → q.finished ≡ hs
    → map (λ k. 60) t.finished ≡ ms
taken_length q t h l m ms g e [] n = let w = rw n at e in absurd cc
taken_length q t h l m ms g e (k ∷ ks) n =
    let w = rw n at e in
    let v = rw n at g in
    let same : record q { finished = ks; spare = q.spare + 1 } ≡ t = cc in
    let rest : map (λ k. 60) ks ≡ ms = cc in
    ap (λ (r : Channel). map (λ k. 60) r.finished) (sym same) ∙ rest

channels-HasLengths : HasLengths channels contents (λ q. map (λ h. 60) q.finished)
channels-HasLengths = record {
  gathered = λ q t h b l us e g.
      let (ks, n, same, rest) = first_twice q.finished h b us e in
      let sixty : l ≡ 60 = cc in
      let kept : q ≡ t = cc in
      (
        map (λ k. 60) ks,
        rw (n, sixty) refl,
        ap (λ (r : Channel). map (λ k. 60) r.finished) (sym kept),
      );
  taken = λ q t h l m ms g e. taken_length q t h l m ms g e q.finished refl;
  added = λ q t b l h g.
      let same : t.finished ≡ q.finished = ground arith in
      ap (λ (hs : List ℕ). map (λ k. 60) hs) same;
}

-- What a driver has taken, and how many more frames it has room for.
record Card : Type 0 where
  taken : List (ℕ × ℕ × ℕ)
  slots : ℕ

abbrev Cable : Type 0
Cable = Link Channel Card (List (List ℕ))

unfoldable card_tx : ℕ → ℕ → ℕ → Cable → Bool × Cable
card_tx addr len h s = elim (s.driver.slots) [
  | zero ↦ (false, s)
  | suc n ↦ (
    true,
    record s { driver = record { taken = s.driver.taken ++ (addr, len, h) ∷ []; slots = n } },
  )
]

-- The stack takes three frames; dataport 7 has every buffer.
abbrev cable_lib : Libs Channel Card (List (List ℕ))
cable_lib = record {
  vq = channels;
  layout = layout;
  encode = λ a. a;
  decode = λ a. a;
  dma_pin = λ a n. a + 65536;
  dataport_id = λ a. 7;
  raw_tx = card_tx;
  raw_poll = λ s. s;
  stack_recv =
      λ k mem a n. if length k == 3 || n == 0 then (pos 0, k) else (pos n, k ++ bytes mem a n ∷ []);
  stack_tick = λ k. k;
}

cable-IsStack : IsStack cable_lib (λ k. k)
cable-IsStack = record {
  takes = λ k mem a n e. elim (Bool-cases (length k == 3 || n == 0)) [
    | inl stops ↦ let w = rw stops at e in absurd cc
    | inr goes ↦ rw goes refl
  ];
  refuses = λ k mem a n e. elim (Bool-cases (length k == 3 || n == 0)) [
    | inl stops ↦ rw stops refl
    | inr goes ↦ let w = rw goes at e in absurd (ground (arith, w, goes))
  ];
}

card-IsDriver : IsDriver cable_lib contents (λ d. d.taken)
unfolding card_tx
card-IsDriver = record {
  enqueues = λ addr len h s e. ground (arith, e);
  refuses = λ addr len h s e. ground (arith, e);
  keeps = λ addr len h s. ground arith;
  polls = λ s. (refl, refl, refl);
}

-- Frame 2048 waits to be sent and 4096 has been, 6144 and 8192 have been received; the card has one slot.
abbrev cable : Cable
cable = record {
  tx_virtqueue = record { ready = (2048, 2048, 60) ∷ []; finished = 4096 ∷ []; spare = 9 };
  rx_virtqueue = record { ready = []; finished = 6144 ∷ 8192 ∷ []; spare = 9 };
  memory = λ a. a % 256;
  client = record { num_tx = 1; pending_tx = 10240 ∷ 0 ∷ []; action = false };
  mapper = 7 ∷ [];
  server = record {
    action = false;
    blocked_tx = false;
    no_rx_bufs = false;
    hw_mac = replicate 6 0;
  };
  driver = record { taken = []; slots = 1 };
  stack = [] ∷ [] ∷ [];
  notices = [];
}

virt_queue_handle_irq-Sent_example :
    (t : Cable) × (virt_queue_handle_irq cable_lib cable ≡ some t)
    × Sent cable_lib contents (λ d. d.taken) cable t
virt_queue_handle_irq-Sent_example =
    virt_queue_handle_irq-Sent cable_lib contents channels-IsChannel (λ d. d.taken) card-IsDriver
      cable

-- The stack takes one frame and refuses the other.
pico_eth_poll-Polled_example :
    (left : ℕ) × (t : Cable) × (pico_eth_poll cable_lib (pos 5) cable ≡ some (pos left, t))
    × Polled cable_lib contents (λ q. map (λ h. 60) q.finished) (λ k. k) 5 left cable t
unfolding is_mapped
pico_eth_poll-Polled_example =
    pico_eth_poll-Polled cable_lib contents (λ q. map (λ h. 60) q.finished) (λ k. k)
      channels-IsChannel channels-HasLengths cable-IsStack 5 cable (λ a. refl)

-- The card takes frame 2048 and no more, so the new frame, in 4096, waits.
pico_eth_send-Delivered_example :
    (t u : Cable) × (buf : ℕ) × (pico_eth_send cable_lib 100 60 cable ≡ some (60, t))
    × ((i : ℕ) → i < 60 → t.memory (buf + i) ≡ cable.memory (100 + i))
    × (virt_queue_handle_irq cable_lib t ≡ some u)
    × Delivered cable_lib contents (λ d. d.taken) cable u 60 buf
pico_eth_send-Delivered_example =
    pico_eth_send-Delivered cable_lib contents channels-IsChannel (λ d. d.taken) card-IsDriver
      (λ a. refl) 100 60 cable (λ e. (omega arith, omega arith))
