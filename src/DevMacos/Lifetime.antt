-- ===== src/DevMacos/Lifetime.antt =====
-- What the backend of src/lws_dev_macos.c takes from the system and gives back.
use lwsip.Common.{
  ◌≡◌, ℕ, Bool, true, false, not, Option, none, some, List, [], ◌∷◌, ◌++◌, ◌==◌, ◌&&◌, ◌||◌,
  if◌then◌else◌, arith, Option-cases, inl, inr,
}
use lwsip.DevMacos.Types.{
  Effect, malloc_data, free_data, mutex_init, mutex_destroy, cond_init, cond_destroy, queue_new,
  queue_dispose, queue_start, queue_stop, buffer_new, buffer_free, buffer_enqueue, ring_malloc,
  ring_free_call,
}

-- What is held; of the queue, the buffers that it has.
pub record Held : Type 0 where
  pub memory : Bool
  pub mutex : Bool
  pub cond : Bool
  pub queue : Bool
  pub buffers : List ℕ
  pub ring : Bool

abbrev pub nothing : Held
nothing = record {
  memory = false;
  mutex = false;
  cond = false;
  queue = false;
  buffers = [];
  ring = false;
}

abbrev pub everything : Held
everything = record {
  memory = true;
  mutex = true;
  cond = true;
  queue = true;
  buffers = 2 ∷ 1 ∷ 0 ∷ [];
  ring = true;
}

abbrev member : ℕ → List ℕ → Bool
member i [] = false
member i (j ∷ js) = (i == j) || member i js

abbrev without : ℕ → List ℕ → List ℕ
without i [] = []
without i (j ∷ js) = if i == j then js else j ∷ without i js

abbrev only_if : Bool → Held → Option Held
only_if true h = some h
only_if false h = none

-- One call; `none` is a call that uses or gives back what is not held, or takes it twice. Memory is
-- given back last, and the queue after its buffers.
unfoldable pub account : Effect → Held → Option Held
account malloc_data h = only_if (not h.memory) (record h { memory = true })
account free_data h =
    only_if (h.memory && not (h.mutex || (h.cond || (h.queue || h.ring))))
      (record h { memory = false })
account mutex_init h = only_if (h.memory && not h.mutex) (record h { mutex = true })
account mutex_destroy h = only_if (h.mutex && not h.queue) (record h { mutex = false })
account cond_init h = only_if (h.memory && not h.cond) (record h { cond = true })
account cond_destroy h = only_if (h.cond && not h.queue) (record h { cond = false })
account (queue_new capture) h = only_if (h.memory && not h.queue) (record h { queue = true })
account queue_dispose h =
    only_if (h.queue && (elim h.buffers [ [] ↦ true | j ∷ js ↦ false ]))
      (record h { queue = false })
account queue_start h = only_if h.queue h
account queue_stop h = only_if h.queue h
account (buffer_new i) h =
    only_if (h.queue && not (member i h.buffers)) (record h { buffers = i ∷ h.buffers })
account (buffer_free i) h =
    only_if (h.queue && member i h.buffers) (record h { buffers = without i h.buffers })
account (buffer_enqueue i) h = only_if (h.queue && member i h.buffers) h
account (ring_malloc n) h = only_if (not h.ring) (record h { ring = true })
account ring_free_call h = only_if (h.ring && not h.queue) (record h { ring = false })
account _ h = some h

unfoldable pub accounts : List Effect → Held → Option Held
unfolding account
accounts [] h = some h
accounts (e ∷ es) h = elim (account e h) [ none ↦ none | some h' ↦ accounts es h' ]

pub accounts-append :
    (es fs : List Effect) (h h' : Held)
    → accounts es h ≡ some h'
    → accounts (es ++ fs) h ≡ accounts fs h'
unfolding accounts
accounts-append [] fs h h' q = ground arith
accounts-append (x ∷ es) fs h h' q = elim (Option-cases (account x h)) [
  | inl refused ↦ ground arith
  | inr (k, e) ↦ ground (arith, accounts-append es fs k h')
]
