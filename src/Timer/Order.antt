-- ===== src/Timer/Order.antt =====
-- The sorted list of lws_timer.c: insertion, removal and lookup.
use lwsip.Common.{
  ℕ, ◌+◌, ◌≤◌, ◌≡◌, refl, ap, false, none, some, List, [], ◌∷◌, ◌++◌, arith, ltb, ◌==◌,
  if◌then◌else◌, inl, inr, Bool-cases,
}
use lwsip.Timer.{Address, TimerNode, timer_list_insert_sorted, timer_list_remove}

-- Every timer of the list expires at `t` or later.
abbrev pub NotBefore : ℕ → List TimerNode → Type 0
NotBefore t [] = Unit
NotBefore t (p ∷ rest) = (t ≤ p.expire_time_ms) × NotBefore t rest

abbrev pub IsSorted : List TimerNode → Type 0
IsSorted [] = Unit
IsSorted (p ∷ rest) = NotBefore p.expire_time_ms rest × IsSorted rest

abbrev pub Absent : Address → List TimerNode → Type 0
Absent a [] = Unit
Absent a (p ∷ rest) = ((p.address == a) ≡ false) × Absent a rest

abbrev pub IsDistinct : List TimerNode → Type 0
IsDistinct [] = Unit
IsDistinct (p ∷ rest) = Absent p.address rest × IsDistinct rest

pub NotBefore-weaken : (s t : ℕ) (xs : List TimerNode) → s ≤ t → NotBefore t xs → NotBefore s xs
NotBefore-weaken s t [] h b = tt
NotBefore-weaken s t (p ∷ rest) h b = (omega arith, NotBefore-weaken s t rest h b.1)

NotBefore-insert :
    (t : ℕ) (node : TimerNode) (xs : List TimerNode)
    → t ≤ node.expire_time_ms
    → NotBefore t xs
    → NotBefore t (timer_list_insert_sorted node xs)
unfolding timer_list_insert_sorted
NotBefore-insert t node [] h b = (h, tt)
NotBefore-insert t node (p ∷ rest) h b = ground (arith, NotBefore-insert t node rest h b.1)

pub insert-IsSorted :
    (node : TimerNode) (xs : List TimerNode)
    → IsSorted xs
    → IsSorted (timer_list_insert_sorted node xs)
unfolding timer_list_insert_sorted
insert-IsSorted node [] s = (tt, tt)
insert-IsSorted node (p ∷ rest) s = elim (Bool-cases (ltb node.expire_time_ms p.expire_time_ms)) [
  | inl lt ↦ rw lt (
    (ground arith, NotBefore-weaken node.expire_time_ms p.expire_time_ms rest (ground arith) s.0),
    s,
  )
  | inr ge ↦ rw ge (
    NotBefore-insert p.expire_time_ms node rest (ground arith) s.0,
    insert-IsSorted node rest s.1,
  )
]

-- The timers that are due at time `t`, and those that are not, in their order.
unfoldable pub due : ℕ → List TimerNode → List TimerNode
due t [] = []
due t (p ∷ rest) = if ltb t p.expire_time_ms then due t rest else p ∷ due t rest

unfoldable pub pending : ℕ → List TimerNode → List TimerNode
pending t [] = []
pending t (p ∷ rest) = if ltb t p.expire_time_ms then p ∷ pending t rest else pending t rest

-- When the first timer of a sorted list is not due, none is.
pub NotBefore-due :
    (t : ℕ) (xs : List TimerNode) → NotBefore (t + 1) xs → (due t xs ≡ []) × (pending t xs ≡ xs)
unfolding due pending
NotBefore-due t [] b = (refl, refl)
NotBefore-due t (p ∷ rest) b = ground (arith, NotBefore-due t rest b.1)

-- Into a sorted list the node goes behind every timer that expires no later, and before every
-- timer that expires later; the others keep their order.
pub insert-due-pending :
    (node : TimerNode) (xs : List TimerNode)
    → IsSorted xs
    → timer_list_insert_sorted node xs
      ≡ due node.expire_time_ms xs ++ node ∷ pending node.expire_time_ms xs
unfolding timer_list_insert_sorted due pending
insert-due-pending node [] s = refl
insert-due-pending node (p ∷ rest) s =
    elim (Bool-cases (ltb node.expire_time_ms p.expire_time_ms)) [
      | inl lt ↦
          let none_due =
            NotBefore-due node.expire_time_ms rest (
              NotBefore-weaken (node.expire_time_ms + 1) p.expire_time_ms rest (ground arith)
                s.0) in
          rw (lt, none_due.0, none_due.1)
      | inr ge ↦ rw ge (ap (λ r. p ∷ r) (insert-due-pending node rest s.1))
    ]

pub Absent-insert :
    (a : Address) (node : TimerNode) (xs : List TimerNode)
    → (node.address == a) ≡ false
    → Absent a xs
    → Absent a (timer_list_insert_sorted node xs)
unfolding timer_list_insert_sorted
Absent-insert a node [] h b = (h, tt)
Absent-insert a node (p ∷ rest) h b = ground (arith, Absent-insert a node rest h b.1)

pub insert-IsDistinct :
    (node : TimerNode) (xs : List TimerNode)
    → Absent node.address xs
    → IsDistinct xs
    → IsDistinct (timer_list_insert_sorted node xs)
unfolding timer_list_insert_sorted
insert-IsDistinct node [] h d = (tt, tt)
insert-IsDistinct node (p ∷ rest) h d =
    ground (arith, insert-IsDistinct node rest h.1 d.1, Absent-insert p.address node rest)

-- A node that has just been inserted is the one that removal takes out.
pub remove-insert :
    (node : TimerNode) (xs : List TimerNode)
    → Absent node.address xs
    → timer_list_remove node.address (timer_list_insert_sorted node xs) ≡ (xs, some node)
unfolding timer_list_remove timer_list_insert_sorted
remove-insert node [] h = ground arith
remove-insert node (p ∷ rest) h = ground (arith, remove-insert node rest h.1)

pub remove-Absent :
    (a : Address) (xs : List TimerNode) → Absent a xs → timer_list_remove a xs ≡ (xs, none)
unfolding timer_list_remove
remove-Absent a [] h = refl
remove-Absent a (p ∷ rest) h = ground (arith, remove-Absent a rest h.1)

NotBefore-remove :
    (t : ℕ) (a : Address) (xs : List TimerNode)
    → NotBefore t xs
    → NotBefore t (timer_list_remove a xs).0
unfolding timer_list_remove
NotBefore-remove t a [] b = tt
NotBefore-remove t a (p ∷ rest) b = ground (arith, NotBefore-remove t a rest b.1)

pub remove-IsSorted :
    (a : Address) (xs : List TimerNode) → IsSorted xs → IsSorted (timer_list_remove a xs).0
unfolding timer_list_remove
remove-IsSorted a [] s = tt
remove-IsSorted a (p ∷ rest) s =
    ground (arith, remove-IsSorted a rest s.1, NotBefore-remove p.expire_time_ms a rest s.0)

Absent-remove :
    (b a : Address) (xs : List TimerNode) → Absent b xs → Absent b (timer_list_remove a xs).0
unfolding timer_list_remove
Absent-remove b a [] h = tt
Absent-remove b a (p ∷ rest) h = ground (arith, Absent-remove b a rest h.1)

pub remove-IsDistinct :
    (a : Address) (xs : List TimerNode) → IsDistinct xs → IsDistinct (timer_list_remove a xs).0
unfolding timer_list_remove
remove-IsDistinct a [] d = tt
remove-IsDistinct a (p ∷ rest) d =
    ground (arith, remove-IsDistinct a rest d.1, Absent-remove p.address a rest d.0)

-- After removal no node with that address is left.
pub Absent-remove_self :
    (a : Address) (xs : List TimerNode) → IsDistinct xs → Absent a (timer_list_remove a xs).0
unfolding timer_list_remove
Absent-remove_self a [] d = tt
Absent-remove_self a (p ∷ rest) d = elim (Bool-cases (p.address == a)) [
  | inl hit ↦ let e : p.address ≡ a = ground arith in rw (hit) (rw e at d.0)
  | inr miss ↦ rw miss (miss, Absent-remove_self a rest d.1)
]
