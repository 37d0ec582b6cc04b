-- ===== src/DevMacos/Refine.antt =====
-- The backend of src/lws_dev_macos.c is the queue of Fifo.
use lwsip.Common.{
  ◌≡◌, refl, ◌∙◌, ℕ, ◌+◌, ◌-◌, ◌≤◌, Bool, true, false, List, [], ◌∷◌, ◌++◌, arith, ltb, leb, ◌&&◌,
  Bytes, drop, length, Bool-cases, inl, inr,
}
use lwsip.DevMacos.Ring.{Ring, ring_put, ring_get, ring_clear, ring_free}
use lwsip.DevMacos.Holds.{Holds, ring_free_lem, ring_put-Holds}
use lwsip.DevMacos.Taken.{ring_get-take, ring_get-Holds, ring_clear-Holds}
use lwsip.DevMacos.Types.{MacosData}
use lwsip.DevMacos.Audio.{
  audio_input_callback, audio_output_callback, Other, recorded, played, halted, emptied, other,
  others, Timespec, Wake, waits_on, wait_data,
}
use lwsip.DevMacos.Fifo.{Line, offer, fetch, happen, happen_all, await}

-- The data of an open device, as a queue of at most `cap` bytes in frames of `frame` bytes.
pub record Represents (cap frame : ℕ) (d : MacosData) (a : Line) : Type 0 where
  pub holds : Holds d.ring a.queue
  pub sized : d.ring.size ≡ cap
  pub framed : d.format.bytes_per_frame ≡ frame
  pub live : d.is_running ≡ a.running

size-ring_put : (bytes : Bytes) (r : Ring) → (ring_put bytes r).size ≡ r.size
unfolding ring_put
size-ring_put bytes r = ground arith

size-ring_get : (n : ℕ) (r : Ring) → (ring_get n r).0.size ≡ r.size
unfolding ring_get
size-ring_get n r = ground arith

module _ {cap frame : ℕ} where
  pub put-Represents :
      {d : MacosData} {a : Line} (bytes : Bytes)
      → Represents cap frame d a
      → length a.queue + length bytes ≤ cap
      → Represents cap frame
          (record d { ring = ring_put bytes d.ring })
          (record a { queue = a.queue ++ bytes })
  put-Represents {d} {a} bytes v room = record {
    holds = ring_put-Holds v.holds bytes (rw v.sized room);
    sized = size-ring_put bytes d.ring ∙ v.sized;
    framed = v.framed;
    live = v.live;
  }

  pub get-Represents :
      {d : MacosData} {a : Line} (n : ℕ)
      → Represents cap frame d a
      → n ≤ length a.queue
      → Represents cap frame
          (record d { ring = (ring_get n d.ring).0 })
          (record a { queue = drop n a.queue })
  get-Represents {d} {a} n v there = record {
    holds = ring_get-Holds v.holds n there;
    sized = size-ring_get n d.ring ∙ v.sized;
    framed = v.framed;
    live = v.live;
  }

  pub clear-Represents :
      {d : MacosData} {a : Line} (running : Bool)
      → Represents cap frame d a
      → Represents cap frame
          (record d { ring = ring_clear d.ring; is_running = running })
          (record { queue = []; running = running })
  unfolding ring_clear
  clear-Represents running v = record {
    holds = unfold ring_clear in ring_clear-Holds v.holds;
    sized = v.sized;
    framed = v.framed;
    live = refl;
  }

  pub free_lem :
      {d : MacosData} {a : Line}
      → Represents cap frame d a
      → ring_free d.ring ≡ cap - length a.queue
  free_lem v = rw (← v.sized) (ring_free_lem v.holds)

  pub used_lem :
      {d : MacosData} {a : Line} → Represents cap frame d a → d.ring.used ≡ length a.queue
  used_lem v = v.holds.counted

  pub fits_lem : {d : MacosData} {a : Line} → Represents cap frame d a → length a.queue ≤ cap
  fits_lem v = let b = v.holds.bounded in let c = v.holds.counted in let s = v.sized in omega arith

  pub input-Represents :
      {d : MacosData} {a : Line} (i : ℕ) (bytes : Bytes)
      → Represents cap frame d a
      → Represents cap frame (audio_input_callback i bytes d).0 (offer cap bytes a)
  unfolding audio_input_callback offer
  input-Represents {d} {a} i bytes v =
      let room = free_lem v in
      let fits = fits_lem v in
      elim (Bool-cases (leb (length a.queue + length bytes) cap)) [
        | inl small ↦
            let e : leb (length bytes) (ring_free d.ring) ≡ true = ground arith in
            rw (small, e) (put-Represents bytes v (ground arith))
        | inr large ↦
            let e : leb (length bytes) (ring_free d.ring) ≡ false = ground arith in rw (large, e) v
      ]

  pub output-Represents :
      {d : MacosData} {a : Line} (i n : ℕ)
      → Represents cap frame d a
      → Represents cap frame (audio_output_callback i n d).0 (fetch cap n a).0
        × ((audio_output_callback i n d).1 ≡ (fetch cap n a).1)
  unfolding audio_output_callback fetch
  output-Represents {d} {a} i n v =
      let u = used_lem v in
      elim (Bool-cases (leb n (length a.queue))) [
        | inl enough ↦
            let there : n ≤ length a.queue = ground arith in
            let e : leb n d.ring.used ≡ true = ground arith in
            rw (e, enough) (get-Represents n v there, ring_get-take v.holds n there)
        | inr short ↦ let e : leb n d.ring.used ≡ false = ground arith in rw (e, short) (v, refl)
      ]

  pub other-Represents :
      {d : MacosData} {a : Line} (o : Other)
      → Represents cap frame d a
      → Represents cap frame (other o d).0 (happen cap o a)
  unfolding other happen ring_clear
  other-Represents (recorded i bytes) v = input-Represents i bytes v
  other-Represents (played i n) v = (output-Represents i n v).0
  other-Represents halted v = record {
    holds = v.holds;
    sized = v.sized;
    framed = v.framed;
    live = refl;
  }
  other-Represents {d} {a} emptied v =
      let c = clear-Represents d.is_running v in
      record { holds = c.holds; sized = v.sized; framed = v.framed; live = v.live }

  pub others-Represents :
      (os : List Other) {d : MacosData} {a : Line}
      → Represents cap frame d a
      → Represents cap frame (others os d).0 (happen_all cap os a)
  unfolding others happen_all
  others-Represents [] v = v
  others-Represents (o ∷ os) v = others-Represents os (other-Represents o v)

  pub wait-Represents :
      (deadline : Timespec) (want : ℕ) (ws : List Wake) {d : MacosData} {a : Line}
      → Represents cap frame d a
      → Represents cap frame (wait_data deadline want ws d).0 (await cap deadline want ws a)
  unfolding wait_data await
  wait-Represents deadline want [] v = v
  wait-Represents deadline want (w ∷ ws) {d} {a} v =
      let after = others-Represents w.meanwhile v in
      let ih = wait-Represents deadline want ws after in
      let u = used_lem v in
      let l = v.live in
      elim (Bool-cases (ltb (length a.queue) want && a.running)) [
        | inl waiting ↦
            let e : (ltb d.ring.used want && d.is_running) ≡ true = ground arith in
            elim (Bool-cases (waits_on deadline w)) [
              | inl on ↦ rw (e, waiting, on) ih
              | inr over ↦ rw (e, waiting, over) after
            ]
        | inr ready ↦
            let e : (ltb d.ring.used want && d.is_running) ≡ false = ground arith in rw (e, ready) v
      ]
