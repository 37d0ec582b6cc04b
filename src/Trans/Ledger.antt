-- ===== src/Trans/Ledger.antt =====
-- A ledger of the resources that the calls of src/lws_trans*.c take and give back.
-- src/lws_trans_udp.c and src/lws_trans_mqtt.c).
use lwsip.Common.{
  ◌≡◌, Bool, true, false, Option, none, some, List, [], ◌∷◌, ◌++◌, ◌==◌, arith, if◌then◌else◌, ℤ,
  pos, negsuc, Option-cases, inl, inr,
}
use lwsip.Trans.Types.{trans_memory, impl_memory, mqtt_client, sock_fd, Effect, acquired, released}

-- Which resources are held; of the socket, its number.
pub record Held : Type 0 where
  pub has_trans : Bool
  pub has_impl : Bool
  pub has_client : Bool
  pub fd : Option ℤ

abbrev pub nothing : Held
nothing = record { has_trans = false; has_impl = false; has_client = false; fd = none }

abbrev pub same_int : ℤ → ℤ → Bool
same_int (pos m) (pos n) = m == n
same_int (negsuc m) (negsuc n) = m == n
same_int (pos m) (negsuc n) = false
same_int (negsuc m) (pos n) = false

pub same_int_refl : (z : ℤ) → same_int z z ≡ true
same_int_refl (pos n) = ground arith
same_int_refl (negsuc n) = ground arith

-- `none` is a resource that is released without being held, or acquired twice.
unfoldable pub take_step : Effect → Held → Option Held
take_step (acquired trans_memory) h =
    if h.has_trans then none else some (record h { has_trans = true })
take_step (released trans_memory) h =
    if h.has_trans then some (record h { has_trans = false }) else none
take_step (acquired impl_memory) h =
    if h.has_impl then none else some (record h { has_impl = true })
take_step (released impl_memory) h =
    if h.has_impl then some (record h { has_impl = false }) else none
take_step (acquired mqtt_client) h =
    if h.has_client then none else some (record h { has_client = true })
take_step (released mqtt_client) h =
    if h.has_client then some (record h { has_client = false }) else none
take_step (acquired (sock_fd fd)) h = elim h.fd [
  | none ↦ some (record h { fd = some fd })
  | some old ↦ none
]
take_step (released (sock_fd fd)) h = elim h.fd [
  | none ↦ none
  | some old ↦ if same_int fd old then some (record h { fd = none }) else none
]
take_step _ h = some h

unfoldable pub take_steps : List Effect → Held → Option Held
unfolding take_step
take_steps [] h = some h
take_steps (e ∷ es) h = elim (take_step e h) [ none ↦ none | some h' ↦ take_steps es h' ]

pub take_steps-append :
    (es fs : List Effect) (h h' : Held)
    → take_steps es h ≡ some h'
    → take_steps (es ++ fs) h ≡ take_steps fs h'
unfolding take_steps
take_steps-append [] fs h h' q = ground arith
take_steps-append (x ∷ es) fs h h' q = elim (Option-cases (take_step x h)) [
  | inl refused ↦ ground arith
  | inr (k, e) ↦ ground (arith, take_steps-append es fs k h')
]
