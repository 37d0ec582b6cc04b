-- ===== src/DevMacos/Taken.antt =====
-- What the readers of the ring buffer of src/lws_dev_macos.c take out.
use lwsip.Common.{
  ◌≡◌, refl, sym, ◌∙◌, ℕ, ◌+◌, ◌-◌, ◌≤◌, ◌<◌, [], arith, true, false, leb, Bytes, take, drop,
  length, length-take, length-drop, length-append, Bool-cases, inl, inr,
}
use lwsip.Common.Memory.{read_at, get_or, get_or-take, get_or-drop, get_or-append, eq_of_get_or}
use lwsip.DevMacos.Ring.{Ring, add_size, sub_size, ring_get, ring_clear}
use lwsip.DevMacos.Holds.{Holds, wrap, mod-wrap}

-- What a `ring_get` of bytes that are there does, in both of its branches.
record Got (n : ℕ) (r : Ring) (r' : Ring) (out : Bytes) : Type 0 where
  size_kept : r'.size ≡ r.size
  write_kept : r'.write_pos ≡ r.write_pos
  bytes_kept : r'.bytes ≡ r.bytes
  fewer : r'.used ≡ r.used - n
  moved : r'.read_pos ≡ wrap r.size (r.read_pos + n)
  whole : length out ≡ n
  bytes : (i : ℕ) → i < n → get_or out i ≡ get_or r.bytes (wrap r.size (r.read_pos + i))

length-read_at :
    (offset n : ℕ) (bytes : Bytes) → offset + n ≤ length bytes → length (read_at offset n bytes) ≡ n
length-read_at offset n bytes h =
    let first = length-take n (drop offset bytes) in
    let second = length-drop offset bytes in omega arith

module _ {r : Ring} {q : Bytes} (h : Holds r q) (n : ℕ) (there : n ≤ length q) where
  get_flat : r.read_pos + n ≤ r.size → Got n r (ring_get n r).0 (ring_get n r).1
  unfolding ring_get
  get_flat fits =
      let c = h.counted in
      let b = h.bounded in
      let d = h.read_in in
      let s = h.small in
      let w = h.whole in
      let p = h.positive in
      let enough : leb n (sub_size r.size r.read_pos) ≡ true = ground arith in
      let m : add_size r.read_pos n ≡ r.read_pos + n = omega arith in
      rw enough (record {
        size_kept = refl;
        write_kept = refl;
        bytes_kept = refl;
        fewer = omega arith;
        moved = rw m (mod-wrap (r.read_pos + n) r.size p fits);
        whole = length-read_at r.read_pos n r.bytes (omega arith);
        bytes = λ i lt.
            ground
              (arith, get_or-take n (drop r.read_pos r.bytes) i, get_or-drop r.read_pos r.bytes i);
      })

  get_split : r.size < r.read_pos + n → Got n r (ring_get n r).0 (ring_get n r).1
  unfolding ring_get
  get_split over =
      let c = h.counted in
      let b = h.bounded in
      let d = h.read_in in
      let s = h.small in
      let w = h.whole in
      let p = h.positive in
      let k = r.size - r.read_pos in
      let m : sub_size r.size r.read_pos ≡ k = omega arith in
      let short : leb n k ≡ false = ground arith in
      let rest : sub_size n k ≡ n - k = omega arith in
      let first = length-read_at r.read_pos k r.bytes (omega arith) in
      let second = length-read_at 0 (n - k) r.bytes (omega arith) in
      let both = length-append (read_at r.read_pos k r.bytes) (read_at 0 (n - k) r.bytes) in
      rw m (
        rw (short, rest)
          (record {
            size_kept = refl;
            write_kept = refl;
            bytes_kept = refl;
            fewer = omega arith;
            moved = ground arith;
            whole = omega arith;
            bytes = λ i lt. ground (
              arith,
              get_or-append (read_at r.read_pos k r.bytes) (read_at 0 (n - k) r.bytes) i,
              get_or-take k (drop r.read_pos r.bytes) i,
              get_or-drop r.read_pos r.bytes i,
              get_or-take (n - k) r.bytes (i - k),
            );
          }))

  get_lem : Got n r (ring_get n r).0 (ring_get n r).1
  get_lem = elim (Bool-cases (leb (r.read_pos + n) r.size)) [
    | inl fits ↦ get_flat (ground arith)
    | inr over ↦ get_split (ground arith)
  ]

  -- The bytes taken are the first of the queue.
  pub ring_get-take : (ring_get n r).1 ≡ take n q
  ring_get-take =
      let t = get_lem in
      let c = h.counted in
      let w = t.whole in
      let l = length-take n q in
      eq_of_get_or (ring_get n r).1 (take n q) (omega arith)
        (λ i lt. ground (arith, t.bytes i, h.stored i, get_or-take n q i))

  -- The rest of the queue stays.
  pub ring_get-Holds : Holds (ring_get n r).0 (drop n q)
  ring_get-Holds =
      let t = get_lem in
      let a = h.behind in
      let b = h.bounded in
      let c = h.counted in
      let d = h.read_in in
      let sk = t.size_kept in
      let wk = t.write_kept in
      let us = t.fewer in
      let mv = t.moved in
      let l = length-drop n q in
      record {
        whole = rw t.bytes_kept (h.whole ∙ sym t.size_kept);
        positive = rw t.size_kept h.positive;
        small = rw t.size_kept h.small;
        counted = omega arith;
        bounded = omega arith;
        read_in = ground arith;
        behind = ground arith;
        stored = λ i lt. rw t.bytes_kept (ground (arith, h.stored (n + i), get_or-drop n q i));
      }

pub ring_clear-Holds : {r : Ring} {q : Bytes} → Holds r q → Holds (ring_clear r) []
unfolding ring_clear
ring_clear-Holds h = record {
  whole = h.whole;
  positive = h.positive;
  small = h.small;
  counted = omega arith;
  bounded = omega arith;
  read_in = h.positive;
  behind = let p = h.positive in ground arith;
  stored = λ i lt. absurd (omega arith);
}
