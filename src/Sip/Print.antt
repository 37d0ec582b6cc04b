-- ===== src/Sip/Print.antt =====
-- What lws_sip_addr_to_string of src/lws_agent.c leaves in the buffer.
use lwsip.Common.{
  ℕ, ◌+◌, ◌-◌, ◌<◌, ◌≡◌, true, false, Bool-cases, inl, inr, some, [], ◌++◌, arith, Bytes, length,
  length-take, length-append, leb, ◌==◌, pos, is_empty, codes, if◌then◌else◌, snprintf,
}
use mathlib.Core.List.{append-nil}
use lwsip.Sip.{
  SipAddr, address_text, port_text, has_port, close_bracket, print_addr, lws_sip_addr_to_string,
}

abbrev pub optional_port : SipAddr → Bytes
optional_port addr = if has_port addr then port_text addr else []

abbrev pub closing : SipAddr → Bytes
closing addr = if is_empty addr.nickname then [] else codes ">"

-- The whole text of an address.
unfoldable pub full_text : SipAddr → Bytes
full_text addr = (address_text addr ++ optional_port addr) ++ closing addr

length_full :
    (addr : SipAddr)
    → length (full_text addr)
      ≡ length (address_text addr) + length (optional_port addr) + length (closing addr)
unfolding full_text
length_full addr = omega (
  arith,
  length-append (address_text addr ++ optional_port addr) (closing addr),
  length-append (address_text addr) (optional_port addr),
)

close_bracket-fits :
    (size : ℕ) (addr : SipAddr) (text : Bytes)
    → length (text ++ closing addr) < size
    → close_bracket size addr text ≡ (text ++ closing addr, pos (length (text ++ closing addr)))
close_bracket-fits size addr text h = elim (Bool-cases (is_empty addr.nickname)) [
  | inl bare ↦ rw (bare, append-nil)
  | inr named ↦
      let room : length (text ++ codes ">") < size = rw named at h in
      let small : leb size (length text + 1) ≡ false =
        ground (arith, length-append text (codes ">")) in
      rw (named, small, length-append text (codes ">"))
]

full_text-port :
    (addr : SipAddr)
    → has_port addr ≡ true
    → full_text addr ≡ (address_text addr ++ port_text addr) ++ closing addr
unfolding full_text
full_text-port addr h = rw h

full_text-portless :
    (addr : SipAddr) → has_port addr ≡ false → full_text addr ≡ address_text addr ++ closing addr
unfolding full_text
full_text-portless addr h = rw (h, append-nil)

-- A buffer with room for the text and its terminating zero receives the whole text, and its length
-- is returned.
pub print-full_text :
    (addr : SipAddr) (old : Bytes) (size : ℕ)
    → length (full_text addr) < size
    → lws_sip_addr_to_string (some addr) (some old) size
      ≡ (some (full_text addr), pos (length (full_text addr)))
unfolding lws_sip_addr_to_string print_addr
print-full_text addr old size h =
    let n = length_full addr in
    let positive : (size == 0) ≡ false = ground arith in
    let first : leb size (length (address_text addr)) ≡ false = ground arith in
    elim (Bool-cases (has_port addr)) [
      | inl ported ↦
          let n' = rw ported at n in
          let second : leb size (length (address_text addr) + length (port_text addr)) ≡ false =
            ground arith in
          rw (positive, first, ported, second)
            (let e = full_text-port addr ported in
              rw (e, close_bracket-fits size addr _ (rw e at h)))
      | inr portless ↦
          rw (positive, first, portless)
            (let e = full_text-portless addr portless in
              rw (e, close_bracket-fits size addr _ (rw e at h)))
    ]

close_bracket-bound :
    (size : ℕ) (addr : SipAddr) (text : Bytes)
    → length text < size
    → length (close_bracket size addr text).0 < size
close_bracket-bound size addr text h = ground (arith, length-append text (codes ">"))

print_addr_bound : (size : ℕ) (addr : SipAddr) → 0 < size → length (print_addr size addr).0 < size
unfolding print_addr
print_addr_bound size addr h = ground (
  arith,
  length-take (size - 1) (address_text addr),
  length-append (address_text addr) (snprintf (size - length (address_text addr)) (port_text addr)),
  length-take (size - length (address_text addr) - 1) (port_text addr),
  length-append (address_text addr) (port_text addr),
  close_bracket-bound size addr (address_text addr ++ port_text addr),
  close_bracket-bound size addr (address_text addr),
)

-- Whatever the address, a buffer of positive size is not overrun: text and terminating zero take at most `size`
-- bytes, also where the call fails.
pub print_bound :
    (addr : SipAddr) (old : Bytes) (size : ℕ)
    → 0 < size
    → (text : Bytes) × ((lws_sip_addr_to_string (some addr) (some old) size).0 ≡ some text)
      × (length text < size)
unfolding lws_sip_addr_to_string
print_bound addr old size h =
    let positive : (size == 0) ≡ false = ground arith in
    ((print_addr size addr).0, rw positive, print_addr_bound size addr h)
