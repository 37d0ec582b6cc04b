-- ===== src/DevMacos/Queue.antt =====
-- Calls and callbacks of the backend of src/lws_dev_macos.c, in any order, as the queue of Fifo.
use lwsip.Common.{
  ◌≡◌, refl, ap, ℕ, ◌+◌, ◌*◌, ◌/◌, ◌≤◌, ◌<◌, true, false, some, List, [], ◌∷◌, ◌++◌, arith, ltb,
  leb, ◌==◌, pos, Bytes, take, length, length-take, Bool-cases, inl, inr,
}
use native.Mathlib.Nat.{mul-div_left, zero-div}
use lwsip.DevMacos.Ring.{ring_clear, ring_free, ring_put, ring_get}
use lwsip.DevMacos.Taken.{ring_get-take}
use lwsip.DevMacos.Types.{MacosData, Effect, Platform, queue_start, queue_stop}
use lwsip.DevMacos.Audio.{audio_input_callback, audio_output_callback, wait_data, deadline_of}
use lwsip.DevMacos.Ops.{
  ReadEnv, macos_start, macos_stop, macos_read_audio, macos_write_audio, macos_get_audio_avail,
  macos_flush_audio,
}
use lwsip.DevMacos.Steps.{
  AudioStep, Reply, reply, read, write, avail, flush, stop, start, input, output, audio_step,
  audio_steps,
}
use lwsip.DevMacos.Fifo.{Line, await, receive, send, line_step, line_steps}
use lwsip.DevMacos.Refine.{
  Represents, put-Represents, get-Represents, clear-Represents, free_lem, used_lem, fits_lem,
  input-Represents, output-Represents, wait-Represents,
}

-- An open device that has made the calls `es`, and no division by zero.
abbrev pub device : MacosData → List Effect → Platform
device d es = record { data_ptr = some d; calls = es; faulted = false }

-- The memory that is given to a write is as long as the write says.
abbrev pub IsBacked : (frame : ℕ) → AudioStep → Type 0
IsBacked frame (write bytes samples) = samples * frame ≤ length bytes
IsBacked frame _ = Unit

abbrev pub AreBacked : (frame : ℕ) → List AudioStep → Type 0
AreBacked frame [] = Unit
AreBacked frame (s ∷ ss) = IsBacked frame s × AreBacked frame ss

-- A step leaves an open device that represents what the queue has become, and replies as it does.
record Follows (cap frame : ℕ) (out : Platform × Reply) (spec : Line × Reply) : Type 0 where
  after : MacosData
  made : List Effect
  left : out.0 ≡ device after made
  represents : Represents cap frame after spec.0
  same : out.1 ≡ spec.1

-- The same data, in its own frames.
owned :
    {cap frame : ℕ} {d : MacosData} {a : Line}
    → Represents cap frame d a
    → Represents cap d.format.bytes_per_frame d a
owned v = record { holds = v.holds; sized = v.sized; framed = refl; live = v.live }

write_own :
    {cap : ℕ} {d : MacosData} {a : Line} (bytes : Bytes) (samples : ℕ) (es : List Effect)
    → samples * d.format.bytes_per_frame ≤ length bytes
    → Represents cap d.format.bytes_per_frame d a
    → Follows cap d.format.bytes_per_frame
        (audio_step (write bytes samples) (device d es))
        (line_step cap d.format.bytes_per_frame (write bytes samples) a)
unfolding audio_step line_step macos_write_audio send
write_own {cap} {d} {a} bytes samples es backed v =
    let want = samples * d.format.bytes_per_frame in
    let room = free_lem v in
    let fits = fits_lem v in
    let all = length-take want bytes in
    elim (Bool-cases (ltb 0 samples)) [
      | inl some_samples ↦ elim (Bool-cases (leb (length a.queue + want) cap)) [
        | inl small ↦
            let e : ltb (ring_free d.ring) want ≡ false = ground arith in
            rw (some_samples, small, e)
              (record {
                after = record d { ring = ring_put (take want bytes) d.ring };
                made = es ++ [];
                left = refl;
                represents = put-Represents (take want bytes) v (ground arith);
                same = refl;
              })
        | inr large ↦
            let e : ltb (ring_free d.ring) want ≡ true = ground arith in
            rw (some_samples, large, e)
              (record { after = d; made = es; left = refl; represents = v; same = refl })
      ]
      | inr no_samples ↦
          rw no_samples (record { after = d; made = es; left = refl; represents = v; same = refl })
    ]

read_own :
    {cap : ℕ} {d : MacosData} {a : Line}
    → 0 < d.format.bytes_per_frame
    → (env : ReadEnv) (samples : ℕ) (es : List Effect) → Represents cap d.format.bytes_per_frame d a
    → Follows cap d.format.bytes_per_frame
        (audio_step (read env samples) (device d es))
        (line_step cap d.format.bytes_per_frame (read env samples) a)
unfolding audio_step line_step macos_read_audio receive
read_own {cap} {d} {a} nonzero env samples es v =
    let frame = d.format.bytes_per_frame in
    let want = samples * frame in
    let deadline = deadline_of env.tv_sec env.tv_usec in
    let d1 = (wait_data deadline want env.wakes d).0 in
    let a1 = await cap deadline want env.wakes a in
    let v1 = wait-Represents deadline want env.wakes v in
    let u = used_lem v1 in
    let z : (frame == 0) ≡ false = ground arith in
    let whole : want / frame ≡ samples = mul-div_left samples nonzero in
    elim (Bool-cases (ltb 0 samples)) [
      | inl some_samples ↦ elim (Bool-cases (leb want (length a1.queue))) [
        | inl enough ↦
            let e : leb want d1.ring.used ≡ true = ground arith in
            let there : want ≤ length a1.queue = ground arith in
            rw (some_samples, enough, e, z, whole)
              (record {
                after = record d1 { ring = (ring_get want d1.ring).0 };
                made = es ++ (wait_data deadline want env.wakes d).1;
                left = refl;
                represents = get-Represents want v1 there;
                same = ap (reply (pos samples)) (ring_get-take v1.holds want there);
              })
        | inr short ↦
            let e : leb want d1.ring.used ≡ false = ground arith in
            let nothing : 0 / frame ≡ 0 = zero-div frame in
            rw (some_samples, short, e, z)
              (record {
                after = d1;
                made = es ++ (wait_data deadline want env.wakes d).1;
                left = refl;
                represents = v1;
                same = ap (λ n. reply (pos n) []) nothing;
              })
      ]
      | inr no_samples ↦
          rw no_samples (record { after = d; made = es; left = refl; represents = v; same = refl })
    ]

module _ {cap frame : ℕ} (nonzero : 0 < frame) where
  read-Follows :
      {d : MacosData} {a : Line} (env : ReadEnv) (samples : ℕ) (es : List Effect)
      → Represents cap frame d a
      → Follows cap frame
          (audio_step (read env samples) (device d es))
          (line_step cap frame (read env samples) a)
  unfolding audio_step line_step
  read-Follows {d} {a} env samples es v =
      rw (← v.framed) (read_own (rw v.framed nonzero) env samples es (owned v))

  write-Follows :
      {d : MacosData} {a : Line} (bytes : Bytes) (samples : ℕ) (es : List Effect)
      → samples * frame ≤ length bytes
      → Represents cap frame d a
      → Follows cap frame
          (audio_step (write bytes samples) (device d es))
          (line_step cap frame (write bytes samples) a)
  write-Follows {d} {a} bytes samples es backed v =
      let f = v.framed in rw (← v.framed) (write_own bytes samples es (rw f backed) (owned v))

  avail-Follows :
      {d : MacosData} {a : Line} (es : List Effect)
      → Represents cap frame d a
      → Follows cap frame (audio_step avail (device d es)) (line_step cap frame avail a)
  unfolding audio_step line_step macos_get_audio_avail
  avail-Follows {d} {a} es v =
      let z : (frame == 0) ≡ false = ground arith in
      record {
        after = d;
        made = es;
        left = rw (v.framed, z);
        represents = v;
        same = rw (v.framed, z, free_lem v);
      }

  step-Follows :
      {d : MacosData} {a : Line} (s : AudioStep) (es : List Effect)
      → IsBacked frame s
      → Represents cap frame d a
      → Follows cap frame (audio_step s (device d es)) (line_step cap frame s a)
  unfolding audio_step line_step macos_flush_audio macos_stop macos_start
  step-Follows (read env samples) es b v = read-Follows env samples es v
  step-Follows (write bytes samples) es b v = write-Follows bytes samples es b v
  step-Follows avail es b v = avail-Follows es v
  step-Follows {d} {a} flush es b v = record {
    after = record d { ring = ring_clear d.ring };
    made = es ++ [];
    left = refl;
    represents =
        let c = clear-Represents d.is_running v in
        record { holds = c.holds; sized = c.sized; framed = v.framed; live = v.live };
    same = refl;
  }
  step-Follows {d} {a} stop es b v = record {
    after = record d { is_running = false; ring = ring_clear d.ring };
    made = es ++ queue_stop ∷ [];
    left = refl;
    represents = clear-Represents false v;
    same = refl;
  }
  step-Follows {d} {a} (start started) es b v = record {
    after = record d { is_running = started };
    made = es ++ queue_start ∷ [];
    left = refl;
    represents = record { holds = v.holds; sized = v.sized; framed = v.framed; live = refl };
    same = refl;
  }
  step-Follows {d} {a} (input i bytes) es b v = record {
    after = (audio_input_callback i bytes d).0;
    made = es ++ (audio_input_callback i bytes d).1;
    left = refl;
    represents = input-Represents i bytes v;
    same = refl;
  }
  step-Follows {d} {a} (output i n) es b v = record {
    after = (audio_output_callback i n d).0;
    made = es ++ (audio_output_callback i n d).2;
    left = refl;
    represents = (output-Represents i n v).0;
    same = ap (reply (pos 0)) (output-Represents i n v).1;
  }

  -- Any calls and callbacks on an open device get the replies of a queue of bytes with the capacity
  -- of the ring.
  pub steps_refine :
      (ss : List AudioStep) {d : MacosData} {a : Line} (es : List Effect)
      → AreBacked frame ss
      → Represents cap frame d a
      → (audio_steps ss (device d es)).1 ≡ line_steps cap frame ss a
  unfolding audio_steps line_steps
  steps_refine [] es b v = refl
  steps_refine (s ∷ ss) es b v =
      let now = step-Follows s es b.0 v in
      rw (now.left, now.same, steps_refine ss now.made b.1 now.represents)
