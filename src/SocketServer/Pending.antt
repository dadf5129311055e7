-- ===== src/SocketServer/Pending.antt =====
-- remote-drivers/picotcp-socket-sync/server/server.c: the lists of messages that wait at a socket, linked
-- through the messages themselves, and what they stand for.
use global_components.Prelude.{
  ℕ, ◌≡◌, refl, sym, ◌∙◌, ◌≢◌, Option, none, some, List, [], ◌∷◌, ◌++◌, arith, ◌==◌, if◌then◌else◌,
}
use global_components.Picoserver.Clients.{Pending}
use global_components.SocketServer.State.{TxMsg, update}

-- The loop's first lines on a queue whose first message is `m`: `queue = msg->next`, and the end.
unfoldable pub pop_pending : (ℕ → TxMsg) → ℕ → Pending → Pending
pop_pending msgs m q = record {
  queue = (msgs m).next;
  queue_end = elim q.queue_end [ none ↦ none | some e ↦ if e == m then none else some e ];
}

-- `m` behind the last message `e`, with the handle that it keeps.
unfoldable pub link_msg : (ℕ → TxMsg) → ℕ → ℕ → ℕ → ℕ → TxMsg
link_msg msgs e m handle =
    let linked = update msgs e (record (msgs e) { next = some m }) in
    update linked m (record (linked m) { next = none; cookie_save = handle })

abbrev pub first : List ℕ → Option ℕ
first [] = none
first (x ∷ xs) = some x

abbrev pub last : List ℕ → Option ℕ
last [] = none
last (x ∷ []) = some x
last (x ∷ y ∷ xs) = last (y ∷ xs)

-- Each message points to the one behind it, and the last to none.
abbrev pub IsChain : (ℕ → TxMsg) → List ℕ → Type 0
IsChain f [] = Unit {0}
IsChain f (x ∷ xs) = ((f x).next ≡ first xs) × IsChain f xs

abbrev pub IsAbsent : ℕ → List ℕ → Type 0
IsAbsent m [] = Unit {0}
IsAbsent m (x ∷ xs) = (m ≢ x) × IsAbsent m xs

abbrev pub AreApart : List ℕ → Type 0
AreApart [] = Unit {0}
AreApart (x ∷ xs) = IsAbsent x xs × AreApart xs

-- The queue `q` holds the messages `xs`, the oldest first.
pub record IsPending (f : ℕ → TxMsg) (q : Pending) (xs : List ℕ) : Type 0 where
  pub head : q.queue ≡ first xs
  pub tail : q.queue_end ≡ last xs
  pub chain : IsChain f xs
  pub apart : AreApart xs

-- `g` links its messages and keeps their handles as `f` does.
pub record SameLinks (f g : ℕ → TxMsg) : Type 0 where
  pub next : (m : ℕ) → (g m).next ≡ (f m).next
  pub cookie : (m : ℕ) → (g m).cookie_save ≡ (f m).cookie_save

IsChain-SameLinks : (f g : ℕ → TxMsg) (xs : List ℕ) → SameLinks f g → IsChain f xs → IsChain g xs
IsChain-SameLinks f g [] h c = tt
IsChain-SameLinks f g (x ∷ xs) h c = (h.next x ∙ c.0, IsChain-SameLinks f g xs h c.1)

pub IsPending-SameLinks :
    (f g : ℕ → TxMsg) (q : Pending) (xs : List ℕ)
    → SameLinks f g
    → IsPending f q xs
    → IsPending g q xs
IsPending-SameLinks f g q xs h p = record {
  head = p.head;
  tail = p.tail;
  chain = IsChain-SameLinks f g xs h p.chain;
  apart = p.apart;
}

last_absent :
    (m : ℕ) (x : ℕ) (xs : List ℕ)
    → IsAbsent m (x ∷ xs)
    → (e : ℕ) × (last (x ∷ xs) ≡ some e) × (m ≢ e)
last_absent m x [] h = (x, refl, h.0)
last_absent m x (y ∷ xs) h = last_absent m y xs h.1

-- Without its first message the queue holds the others.
pub pop_pending-IsPending :
    (f : ℕ → TxMsg) (m : ℕ) (q : Pending) (xs : List ℕ)
    → IsPending f q (m ∷ xs)
    → IsPending f (pop_pending f m q) xs
unfolding pop_pending
pop_pending-IsPending f m q [] p = record {
  head = p.chain.0;
  tail = ground (arith, p.tail);
  chain = tt;
  apart = tt;
}
pop_pending-IsPending f m q (x ∷ xs) p =
    let (e, l, ne) = last_absent m x xs p.apart.0 in
    let t = p.tail in
    record {
      head = p.chain.0;
      tail = ground (arith, l, t, ne);
      chain = p.chain.1;
      apart = p.apart.1;
    }

last-snoc : (xs : List ℕ) (m : ℕ) → last (xs ++ m ∷ []) ≡ some m
last-snoc [] m = refl
last-snoc (x ∷ []) m = refl
last-snoc (x ∷ y ∷ xs) m = last-snoc (y ∷ xs) m

IsAbsent-snoc : (x m : ℕ) (xs : List ℕ) → IsAbsent x xs → x ≢ m → IsAbsent x (xs ++ m ∷ [])
IsAbsent-snoc x m [] h ne = (ne, tt)
IsAbsent-snoc x m (y ∷ xs) h ne = (h.0, IsAbsent-snoc x m xs h.1 ne)

AreApart-snoc : (xs : List ℕ) (m : ℕ) → AreApart xs → IsAbsent m xs → AreApart (xs ++ m ∷ [])
AreApart-snoc [] m h a = (tt, tt)
AreApart-snoc (x ∷ xs) m h a =
    (IsAbsent-snoc x m xs h.0 (λ e. a.0 (sym e)), AreApart-snoc xs m h.1 a.1)

link_msg_next :
    (f : ℕ → TxMsg) (e m handle x : ℕ) → x ≢ e → x ≢ m → (link_msg f e m handle x).next ≡ (f x).next
unfolding link_msg
link_msg_next f e m handle x ne nm = ground arith

IsChain-link_msg :
    (f : ℕ → TxMsg) (e m handle : ℕ) (xs : List ℕ)
    → IsChain f xs
    → AreApart xs
    → IsAbsent m xs
    → last xs ≡ some e
    → IsChain (link_msg f e m handle) (xs ++ m ∷ [])
unfolding link_msg
IsChain-link_msg f e m handle [] c a n l = absurd (ground arith)
IsChain-link_msg f e m handle (x ∷ []) c a n l = (ground (arith, n.0), (ground arith, tt))
IsChain-link_msg f e m handle (x ∷ y ∷ xs) c a n l =
    let (e', l', ne) = last_absent x y xs a.0 in
    (
      link_msg_next f e m handle x (λ w. ne (ground arith)) (λ w. n.0 (sym w)) ∙ c.0,
      IsChain-link_msg f e m handle (y ∷ xs) c.1 a.1 n.1 l,
    )

-- A message that is put behind the last one is the last of the queue.
pub link_msg-IsPending :
    (f : ℕ → TxMsg) (q : Pending) (e m handle : ℕ) (xs : List ℕ)
    → IsPending f q xs
    → IsAbsent m xs
    → q.queue_end ≡ some e
    → IsPending (link_msg f e m handle) (record q { queue_end = some m }) (xs ++ m ∷ [])
link_msg-IsPending f q e m handle [] p n l = absurd (ground (arith, p.tail))
link_msg-IsPending f q e m handle (x ∷ xs) p n l = record {
  head = p.head;
  tail = sym (last-snoc (x ∷ xs) m);
  chain = IsChain-link_msg f e m handle (x ∷ xs) p.chain p.apart n (sym p.tail ∙ l);
  apart = AreApart-snoc (x ∷ xs) m p.apart n;
}

-- A message alone.
pub alone-IsPending :
    (f : ℕ → TxMsg) (m : ℕ)
    → (f m).next ≡ none
    → IsPending f (record { queue = some m; queue_end = some m }) (m ∷ [])
alone-IsPending f m e = record { head = refl; tail = refl; chain = (e, tt); apart = (tt, tt) }
