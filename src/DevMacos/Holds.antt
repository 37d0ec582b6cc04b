-- ===== src/DevMacos/Holds.antt =====
-- The ring buffer of src/lws_dev_macos.c holds a queue of bytes.
use lwsip.Common.{
  ◌≡◌, refl, sym, ◌∙◌, ℕ, ◌+◌, ◌-◌, ◌%◌, ◌^◌, ◌≤◌, ◌<◌, ◌++◌, ◌&&◌, arith, true, false,
  if◌then◌else◌, ltb, leb, Bytes, take, drop, length, length-take, length-drop, length-append,
  Bool-cases, inl, inr,
}
use lwsip.Common.Memory.{
  write_at, get_or, get_or-take, get_or-drop, get_or-append, get_or-write_at, length-write_at,
}
use lwsip.DevMacos.Ring.{Ring, add_size, sub_size, ring_free, ring_put}
use native.Mathlib.Nat.{mod-eq_of_lt, mod_self}

-- An index that may have gone round once.
abbrev pub wrap : ℕ → ℕ → ℕ
wrap size i = if ltb i size then i else i - size

-- The bytes of the queue lie in the memory from the read position on, going round at its end.
pub record Holds (r : Ring) (q : Bytes) : Type 0 where
  pub whole : length r.bytes ≡ r.size
  pub positive : 0 < r.size
  pub small : r.size < 2 ^ 63
  pub counted : r.used ≡ length q
  pub bounded : r.used ≤ r.size
  pub read_in : r.read_pos < r.size
  pub behind : r.write_pos ≡ wrap r.size (r.read_pos + r.used)
  pub stored : (i : ℕ) → i < r.used → get_or r.bytes (wrap r.size (r.read_pos + i)) ≡ get_or q i

pub mod-wrap : (k n : ℕ) → 0 < n → k ≤ n → k % n ≡ wrap n k
mod-wrap k n p h = elim (Bool-cases (ltb k n)) [
  | inl below ↦ rw below (mod-eq_of_lt {n = k} {m = n} (ground arith))
  | inr top ↦ let e : k ≡ n = ground arith in rw top (rw e (mod_self n ∙ omega arith))
]

pub ring_free_lem : {r : Ring} {q : Bytes} → Holds r q → ring_free r ≡ r.size - length q
ring_free_lem {r} {q} h = let c = h.counted in let b = h.bounded in let s = h.small in omega arith

-- The memory after `input` has been written from `pos` on, going round at the end.
abbrev written : (size pos : ℕ) → Bytes → Bytes → ℕ → ℕ
written size pos input bytes j =
    if leb pos j && ltb j (pos + length input)
    then get_or input (j - pos)
    else if ltb (j + size) (pos + length input)
    then get_or input (j + size - pos)
    else get_or bytes j

-- What a `ring_put` for which there is room does, in both of its branches.
record Put (input : Bytes) (r r' : Ring) : Type 0 where
  size_kept : r'.size ≡ r.size
  read_kept : r'.read_pos ≡ r.read_pos
  more : r'.used ≡ r.used + length input
  moved : r'.write_pos ≡ wrap r.size (r.write_pos + length input)
  whole : length r'.bytes ≡ r.size
  bytes : (j : ℕ) → j < r.size → get_or r'.bytes j ≡ written r.size r.write_pos input r.bytes j

module _ {r : Ring} {q : Bytes} (h : Holds r q) (input : Bytes) where
  flat-Put :
      length q + length input ≤ r.size
      → r.write_pos + length input ≤ r.size
      → Put input r (ring_put input r)
  unfolding ring_put
  flat-Put room fits =
      let c = h.counted in
      let s = h.small in
      let w = h.whole in
      let p = h.positive in
      let enough : leb (length input) (sub_size r.size r.write_pos) ≡ true = ground arith in
      let n : add_size r.write_pos (length input) ≡ r.write_pos + length input = omega arith in
      rw enough (record {
        size_kept = refl;
        read_kept = refl;
        more = omega arith;
        moved = rw n (mod-wrap (r.write_pos + length input) r.size p fits);
        whole = length-write_at r.write_pos input r.bytes (omega arith) ∙ w;
        bytes = λ j lt. ground (arith, get_or-write_at r.write_pos input r.bytes j);
      })

  split-Put :
      length q + length input ≤ r.size
      → r.write_pos < r.size
      → r.size < r.write_pos + length input
      → Put input r (ring_put input r)
  unfolding ring_put
  split-Put room inside over =
      let c = h.counted in
      let s = h.small in
      let w = h.whole in
      let p = h.positive in
      let m : sub_size r.size r.write_pos ≡ r.size - r.write_pos = omega arith in
      let k = r.size - r.write_pos in
      let short : leb (length input) k ≡ false = ground arith in
      let first = length-take k input in
      let second = length-drop k input in
      let once = length-write_at r.write_pos (take k input) r.bytes (omega arith) in
      rw m (
        rw short (record {
          size_kept = refl;
          read_kept = refl;
          more = omega arith;
          moved = ground arith;
          whole =
              length-write_at 0 (drop k input) (write_at r.write_pos (take k input) r.bytes)
                (omega arith)
              ∙ (once ∙ w);
          bytes = λ j lt. ground (
            arith,
            get_or-write_at 0 (drop k input) (write_at r.write_pos (take k input) r.bytes) j,
            get_or-write_at r.write_pos (take k input) r.bytes j,
            get_or-drop k input j,
            get_or-take k input (j - r.write_pos),
          );
        }))

  write_pos-lt : r.write_pos < r.size
  write_pos-lt = let a = h.behind in let b = h.bounded in let c = h.read_in in ground arith

  put_lem : length q + length input ≤ r.size → Put input r (ring_put input r)
  put_lem room = elim (Bool-cases (leb (r.write_pos + length input) r.size)) [
    | inl fits ↦ flat-Put room (ground arith)
    | inr over ↦ split-Put room write_pos-lt (ground arith)
  ]

  -- Bytes for which there is room go behind the queue.
  pub ring_put-Holds : length q + length input ≤ r.size → Holds (ring_put input r) (q ++ input)
  ring_put-Holds room =
      let t = put_lem room in
      let r' = ring_put input r in
      let a = h.behind in
      let b = h.bounded in
      let c = h.counted in
      let d = h.read_in in
      let e = h.positive in
      let f = h.small in
      let sk = t.size_kept in
      let rk = t.read_kept in
      let us = t.more in
      let mv = t.moved in
      let both = length-append q input in
      record {
        whole = t.whole ∙ sym t.size_kept;
        positive = omega arith;
        small = omega arith;
        counted = omega arith;
        bounded = omega arith;
        read_in = omega arith;
        behind = ground arith;
        stored = λ i lt.
            ground
              (arith, t.bytes (wrap r.size (r.read_pos + i)), h.stored i, get_or-append q input i);
      }
