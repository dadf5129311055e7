-- ===== src/Tests/Rings.antt =====
-- Lists as rings of shared buffers.
use global_components.Prelude.{ℕ, refl, none, some, List, [], ◌∷◌, ◌++◌}
use global_components.Virtqueue.{Virtqueue, IsDevice}

-- The handles that are available and those that are used.
pub record Lists : Type 0 where
  pub available : List ℕ
  pub finished : List (ℕ × ℕ)

-- The buffer of handle `h` is at `h` and has 2048 bytes.
abbrev pub lists : Virtqueue Lists
lists = record {
  get_available_buf =
      λ q. elim q.available [ [] ↦ none | h ∷ hs ↦ some (h, record q { available = hs }) ];
  gather_available = λ q h. some (h, 2048);
  add_used_buf = λ q h len. some (record q { finished = q.finished ++ (h, len) ∷ [] });
  get_used_buf =
      λ q. elim q.finished [ [] ↦ none | e ∷ es ↦ some (e.0, e.1, record q { finished = es }) ];
  gather_used = λ q h. some (h, 2048, q);
  add_available_buf = λ q buf len. some (buf, record q { available = q.available ++ buf ∷ [] });
  avail = λ q. q.available;
  used = λ q. q.finished;
}

pub lists-IsDevice : IsDevice lists
lists-IsDevice = record {
  get_none = λ q e. rw e refl;
  get_first = λ q h hs e. (record q { available = hs }, rw e refl, refl, refl);
  add_used = λ q h len. (record q { finished = q.finished ++ (h, len) ∷ [] }, refl, refl, refl);
}
