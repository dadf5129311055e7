-- ===== src/Ethdriver/Ready.antt =====
-- components/Ethdriver/src/ethdriver.c: the end of `server_init` leaves the buffers where they are.
use global_components.Prelude.{
  ℕ, ◌+◌, ◌≡◌, refl, some, List, [], ◌∷◌, arith, length, Bool-cases, inr, subst, inl, Option-cases,
  suc, ap, true,
}
use global_components.Ethdriver.State.{Client, Ethdriver}
use global_components.Ethdriver.Init.{Platform, finish_init, set_macs}
use global_components.Ethdriver.Buffers.{
  Holds, AreQueues, pending_total, pending_counts, pending_count,
}
use global_components.Ethdriver.Queue.{pending_len}

-- Clients whose queues are the same.
record SameQueues (cs ds : List Client) : Type 0 where
  size : length ds ≡ length cs
  queues : AreQueues cs → AreQueues ds
  total : pending_total ds ≡ pending_total cs
  counts : (a : ℕ) → pending_counts a ds ≡ pending_counts a cs

with_mac-SameQueues :
    (c : Client) (m : List ℕ) (cs ds : List Client)
    → SameQueues cs ds
    → SameQueues (c ∷ cs) (record c { mac = m } ∷ ds)
unfolding pending_total pending_counts pending_count
with_mac-SameQueues c m cs ds h = record {
  size = ap suc h.size;
  queues = λ q. (
    record { room = q.0.room; head_in = q.0.head_in; tail_in = q.0.tail_in; awake = q.0.awake },
    h.queues q.1,
  );
  total = ap (λ n. pending_len c + n) h.total;
  counts = λ a. ap (λ n. pending_count a c + n) (h.counts a);
}

set_macs-SameQueues :
    (p : Platform) (defaults : ℕ) (cs ds : List Client)
    → set_macs p defaults cs ≡ some ds
    → SameQueues cs ds
unfolding set_macs
set_macs-SameQueues p d [] ds e =
    let same : [] ≡ ds = ground arith in
    subst (λ xs. SameQueues [] xs) same
      (record { size = refl; queues = λ q. q; total = refl; counts = λ a. refl })
set_macs-SameQueues p d (c ∷ cs) ds e = elim (Bool-cases (p.has_mac c.client_id)) [
  | inl own ↦ elim (Option-cases (set_macs p d cs)) [
    | inl failed ↦ ground arith
    | inr (es, f) ↦
        let same : record c { mac = p.get_mac c.client_id } ∷ es ≡ ds = ground arith in
        subst (λ xs. SameQueues (c ∷ cs) xs) same
          (with_mac-SameQueues c _ cs es (set_macs-SameQueues p d cs es f))
  ]
  | inr card ↦ elim (Option-cases (set_macs p (d + 1) cs)) [
    | inl failed ↦ ground arith
    | inr (es, f) ↦
        let same : record c { mac = p.hw_mac } ∷ es ≡ ds = ground arith in
        subst (λ xs. SameQueues (c ∷ cs) xs) same
          (with_mac-SameQueues c _ cs es (set_macs-SameQueues p (d + 1) cs es f))
  ]
]

pub finish_init-Holds :
    (p : Platform) (s t : Ethdriver) (held : List ℕ)
    → finish_init p s ≡ some t
    → Holds s held
    → Holds t held
unfolding finish_init
finish_init-Holds p s t held e h = elim (Option-cases (set_macs p 0 s.clients)) [
  | inl failed ↦ ground arith
  | inr (ds, f) ↦
      let same : record s { clients = ds; done_init = true } ≡ t = ground arith in
      let k = set_macs-SameQueues p 0 s.clients ds f in
      subst (λ u. Holds u held) same
        (record {
          some_client = omega (arith, k.size, h.some_client);
          room = h.room;
          queues = k.queues h.queues;
          total = omega (arith, k.total, h.total);
          once = λ a. omega (arith, k.counts a, h.once a);
          pinned = h.pinned;
        })
]
