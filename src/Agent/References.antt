-- ===== src/Agent/References.antt =====
-- The references to server transactions of libsip that the dialogs of src/lws_agent.c hold, and
-- what the operations on the list of dialogs do to their number.
use lwsip.Common.{
  ◌≡◌, refl, sym, ap, ◌∙◌, ℕ, suc, ◌+◌, Bool, true, false, some, List, [], ◌∷◌, ◌++◌, ◌==◌, arith,
  Bytes, str_eq, Bool-cases, inl, inr, ==_refl, is_some,
}
use lwsip.Agent.Types.{Dialog, AgentEvent, uas_addref, uas_release}
use lwsip.Agent.Dialogs.{at_address, store, unlink, lws_agent_find_dialog}

-- The references that a sequence of calls takes and gives back.
abbrev pub taken : List AgentEvent → ℕ
taken [] = 0
taken (uas_addref p ∷ es) = suc (taken es)
taken (e ∷ es) = taken es

abbrev pub given : List AgentEvent → ℕ
given [] = 0
given (uas_release p ∷ es) = suc (given es)
given (e ∷ es) = given es

pub taken-append : (es fs : List AgentEvent) → taken (es ++ fs) ≡ taken es + taken fs
taken-append [] fs = omega arith
taken-append (e ∷ es) fs = ground (arith, taken-append es fs)

pub given-append : (es fs : List AgentEvent) → given (es ++ fs) ≡ given es + given fs
given-append [] fs = omega arith
given-append (e ∷ es) fs = ground (arith, given-append es fs)

abbrev pub one_if : Bool → ℕ
one_if true = 1
one_if false = 0

-- The dialogs that hold a reference.
abbrev pub held : List Dialog → ℕ
held [] = 0
held (d ∷ ds) = one_if d.uas_txn + held ds

pub held-store :
    (new d : Dialog) (ds : List Dialog)
    → at_address new.address ds ≡ some d
    → held (store new ds) + one_if d.uas_txn ≡ held ds + one_if new.uas_txn
unfolding at_address store
held-store new d [] h = cc
held-store new d (e ∷ ds) h = elim (Bool-cases (e.address == new.address)) [
  | inl here ↦
      let same : e ≡ d = ground arith in
      let bits : one_if e.uas_txn ≡ one_if d.uas_txn = ap (λ x. one_if x.uas_txn) same in
      rw here (omega arith)
  | inr there ↦ let ih = held-store new d ds (rw there at h) in rw there (omega arith)
]

pub held-unlink :
    (p : ℕ) (d : Dialog) (ds : List Dialog)
    → at_address p ds ≡ some d
    → held (unlink p ds) + one_if d.uas_txn ≡ held ds
unfolding at_address unlink
held-unlink p d [] h = cc
held-unlink p d (e ∷ ds) h = elim (Bool-cases (e.address == p)) [
  | inl here ↦
      let same : e ≡ d = ground arith in
      let bits : one_if e.uas_txn ≡ one_if d.uas_txn = ap (λ x. one_if x.uas_txn) same in
      rw here (omega arith)
  | inr there ↦ let ih = held-unlink p d ds (rw there at h) in rw there (omega arith)
]

pub at_stored :
    (new : Dialog) (ds : List Dialog)
    → is_some (at_address new.address ds) ≡ true
    → at_address new.address (store new ds) ≡ some new
unfolding at_address store
at_stored new [] h = cc
at_stored new (e ∷ ds) h = elim (Bool-cases (e.address == new.address)) [
  | inl here ↦ rw here (rw (==_refl new.address))
  | inr there ↦ rw there (rw there (at_stored new ds (rw there at h)))
]

pub at_created : (d : Dialog) (ds : List Dialog) → at_address d.address (d ∷ ds) ≡ some d
unfolding at_address
at_created d ds = rw (==_refl d.address)

pub at_own : (p : ℕ) (d : Dialog) (ds : List Dialog) → at_address p ds ≡ some d → d.address ≡ p
unfolding at_address
at_own p d [] h = cc
at_own p d (e ∷ ds) h = elim (Bool-cases (e.address == p)) [
  | inl here ↦ let same : e ≡ d = ground arith in let q = ap (λ x. x.address) same in ground arith
  | inr there ↦ at_own p d ds (rw there at h)
]

-- No dialog of the list stands at the address.
abbrev pub Missing : ℕ → List Dialog → Type 0
Missing p [] = Unit
Missing p (d ∷ ds) = ((d.address == p) ≡ false) × Missing p ds

-- Each dialog stands at an address of its own.
abbrev pub AreDistinct : List Dialog → Type 0
AreDistinct [] = Unit
AreDistinct (d ∷ ds) = Missing d.address ds × AreDistinct ds

Missing-store : (p : ℕ) (new : Dialog) (ds : List Dialog) → Missing p ds → Missing p (store new ds)
unfolding store
Missing-store p new [] m = m
Missing-store p new (e ∷ ds) m = elim (Bool-cases (e.address == new.address)) [
  | inl here ↦
      let q : e.address ≡ new.address = ground arith in let h = m.0 in rw here ((ground arith), m.1)
  | inr there ↦ rw there (m.0, Missing-store p new ds m.1)
]

pub store-AreDistinct :
    (new : Dialog) (ds : List Dialog) → AreDistinct ds → AreDistinct (store new ds)
unfolding store
store-AreDistinct new [] h = h
store-AreDistinct new (e ∷ ds) h = elim (Bool-cases (e.address == new.address)) [
  | inl here ↦ let q : e.address ≡ new.address = ground arith in rw here (rw (← q) h)
  | inr there ↦ rw there (Missing-store e.address new ds h.0, store-AreDistinct new ds h.1)
]

Missing-unlink : (p r : ℕ) (ds : List Dialog) → Missing p ds → Missing p (unlink r ds)
unfolding unlink
Missing-unlink p r [] m = m
Missing-unlink p r (e ∷ ds) m = elim (Bool-cases (e.address == r)) [
  | inl here ↦ rw here m.1
  | inr there ↦ rw there (m.0, Missing-unlink p r ds m.1)
]

pub unlink-AreDistinct : (r : ℕ) (ds : List Dialog) → AreDistinct ds → AreDistinct (unlink r ds)
unfolding unlink
unlink-AreDistinct r [] h = h
unlink-AreDistinct r (e ∷ ds) h = elim (Bool-cases (e.address == r)) [
  | inl here ↦ rw here h.1
  | inr there ↦ rw there (Missing-unlink e.address r ds h.0, unlink-AreDistinct r ds h.1)
]

Missing-at :
    (p q : ℕ) (d : Dialog) (ds : List Dialog)
    → Missing p ds
    → at_address q ds ≡ some d
    → (p == d.address) ≡ false
unfolding at_address
Missing-at p q d [] m h = cc
Missing-at p q d (e ∷ ds) m h = elim (Bool-cases (e.address == q)) [
  | inl here ↦
      let same : e ≡ d = ground arith in
      let r = ap (λ x. x.address) same in let n = m.0 in ground arith
  | inr there ↦ Missing-at p q d ds m.1 (rw there at h)
]

at_first :
    (p : ℕ) (d : Dialog) (ds : List Dialog)
    → (d.address == p) ≡ true
    → at_address p (d ∷ ds) ≡ some d
unfolding at_address
at_first p d ds h = rw h refl

-- A dialog that is found by its call stands at its own address.
pub at_found :
    (call_id : Bytes) (d : Dialog) (ds : List Dialog)
    → AreDistinct ds
    → lws_agent_find_dialog call_id ds ≡ some d
    → at_address d.address ds ≡ some d
unfolding lws_agent_find_dialog at_address
at_found call_id d [] u h = cc
at_found call_id d (e ∷ ds) u h = elim (Bool-cases (str_eq e.call_id call_id)) [
  | inl here ↦
      let same : e ≡ d = ground arith in
      let q : (e.address == d.address) ≡ true =
        ap (λ x. e.address == x.address) (sym same) ∙ ==_refl e.address in
      at_first d.address e ds q ∙ ap some same
  | inr there ↦
      let ih = at_found call_id d ds u.1 (rw there at h) in
      let other = Missing-at e.address d.address d ds u.0 ih in rw other ih
]
