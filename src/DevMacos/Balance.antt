-- ===== src/DevMacos/Balance.antt =====
-- What macos_open and macos_close of src/lws_dev_macos.c take and give back.
use lwsip.Common.{
  ◌≡◌, refl, ◌∙◌, ℕ, ◌*◌, ◌/◌, Bool, true, false, Option, none, some, List, [], ◌∷◌, ◌++◌, ◌⊎◌, inl,
  inr, arith, is_neg, is_some, Bool-cases, Option-cases,
}
use lwsip.DevMacos.Types.{
  Platform, Effect, MacosData, is_capture_type, setup_audio_format, ring_malloc, queue_new,
}
use lwsip.DevMacos.Open.{
  begin_open, OpenEnv, macos_open, macos_close, make_buffers, free_buffers, close_calls,
  dispose_queue, drop_data, num_buffers,
}
use lwsip.DevMacos.Lifetime.{nothing, everything, account, Held, accounts, accounts-append}

-- The backend has an open device, and by its calls all that belongs to one.
pub record IsHeld (p : Platform) : Type 0 where
  pub present : is_some p.data_ptr ≡ true
  pub booked : accounts p.calls nothing ≡ some everything

-- The device of a backend that has one.
pub device_of : (p : Platform) → IsHeld p → (d : MacosData) × (p.data_ptr ≡ some d)
device_of p v = elim (Option-cases p.data_ptr) [
  | inl e ↦ absurd (let q = v.present in ground arith)
  | inr found ↦ found
]

-- It has none, and by its calls nothing at all.
pub record IsFree (p : Platform) : Type 0 where
  pub absent : p.data_ptr ≡ none
  pub settled : accounts p.calls nothing ≡ some nothing

note-IsFree :
    (p : Platform) (es : List Effect)
    → IsFree p
    → accounts es nothing ≡ some nothing
    → IsFree (record p { calls = p.calls ++ es })
note-IsFree p es v h = record {
  absent = v.absent;
  settled = accounts-append p.calls es nothing nothing v.settled ∙ h;
}

abbrev with_queue : List ℕ → Held
with_queue buffers = record everything { buffers = buffers; ring = false }

-- The buffers that are made can all be freed with the queue, wherever the making stops.
Made : List Effect × Option ℕ → Type 0
Made r =
    ((i : ℕ) × (r.1 ≡ some i)
      × (accounts (r.0 ++ (dispose_queue i ++ drop_data)) (with_queue []) ≡ some nothing))
    ⊎ ((r.1 ≡ none)
        × (accounts (r.0 ++ (dispose_queue 3 ++ drop_data)) (with_queue []) ≡ some nothing)
        × (accounts r.0 (with_queue []) ≡ some (with_queue (2 ∷ 1 ∷ 0 ∷ []))))

make_buffers-Made :
    (made : ℕ → Bool) (capture : Bool) (size : ℕ)
    → Made (make_buffers made capture size 0 num_buffers)
unfolding Made make_buffers free_buffers
make_buffers-Made made true size = elim (Bool-cases (made 0)) [
  | inr e0 ↦ rw e0 (inl (0, refl, unfold accounts account in refl))
  | inl e0 ↦ elim (Bool-cases (made 1)) [
    | inr e1 ↦ rw (e0, e1) (inl (1, refl, unfold accounts account in refl))
    | inl e1 ↦ elim (Bool-cases (made 2)) [
      | inr e2 ↦ rw (e0, e1, e2) (inl (2, refl, unfold accounts account in refl))
      | inl e2 ↦
          rw (e0, e1, e2)
            (inr (refl, unfold accounts account in refl, unfold accounts account in refl))
    ]
  ]
]
make_buffers-Made made false size = elim (Bool-cases (made 0)) [
  | inr e0 ↦ rw e0 (inl (0, refl, unfold accounts account in refl))
  | inl e0 ↦ elim (Bool-cases (made 1)) [
    | inr e1 ↦ rw (e0, e1) (inl (1, refl, unfold accounts account in refl))
    | inl e1 ↦ elim (Bool-cases (made 2)) [
      | inr e2 ↦ rw (e0, e1, e2) (inl (2, refl, unfold accounts account in refl))
      | inl e2 ↦
          rw (e0, e1, e2)
            (inr (refl, unfold accounts account in refl, unfold accounts account in refl))
    ]
  ]
]

-- A failed opening gives everything back, and one that succeeds leaves all that it made.
pub open_result :
    (env : OpenEnv) (p : Platform)
    → IsFree p
    → ((is_neg (macos_open env p).1 ≡ true) × IsFree (macos_open env p).0)
      ⊎ ((is_neg (macos_open env p).1 ≡ false) × IsHeld (macos_open env p).0)
unfolding macos_open Made
open_result env p v =
    let format = setup_audio_format env.format env.sample_rate env.channels in
    let capture = is_capture_type env.type in
    let made =
      make_buffers-Made env.buffer_made capture
        (env.sample_rate * 20 / 1000 * format.bytes_per_frame) in
    let size = env.sample_rate * format.bytes_per_frame in
    let buffers =
      make_buffers env.buffer_made capture (env.sample_rate * 20 / 1000 * format.bytes_per_frame) 0
        num_buffers in
    let queued = begin_open ++ (queue_new capture ∷ buffers.0) in
    elim (Bool-cases env.has_data) [
      | inr e0 ↦ rw e0 (inl (refl, v))
      | inl e0 ↦ elim (Bool-cases env.queue_made) [
        | inr e1 ↦ rw (e0, e1) (inl (refl, note-IsFree p _ v (unfold accounts account in refl)))
        | inl e1 ↦ elim made [
          | inl (i, stop, back) ↦
              rw (e0, e1, stop) (inl (refl, note-IsFree p _ v (unfold accounts account in back)))
          | inr (all, back, kept) ↦
              let whole : accounts (queued ++ (ring_malloc size ∷ [])) nothing ≡ some everything =
                (unfold accounts account in
                  accounts-append buffers.0 (ring_malloc size ∷ []) (with_queue [])
                    (with_queue (2 ∷ 1 ∷ 0 ∷ [])) kept) in
              elim (Option-cases (env.ring_memory (env.sample_rate * format.bytes_per_frame))) [
                | inl e2 ↦
                    rw (e0, e1, all, e2)
                      (inl (refl, note-IsFree p _ v (unfold accounts account in back)))
                | inr (bytes, e2) ↦
                    rw (e0, e1, all, e2)
                      (inr (
                        refl,
                        record {
                          present = refl;
                          booked =
                              accounts-append p.calls (queued ++ (ring_malloc size ∷ [])) nothing
                                nothing v.settled
                              ∙ whole;
                        },
                      ))
              ]
        ]
      ]
    ]

pub close-IsFree : (p : Platform) → IsHeld p → IsFree (macos_close p)
unfolding macos_close free_buffers
close-IsFree p v =
    let (d, e) = device_of p v in
    let all = accounts-append p.calls close_calls nothing everything v.booked in
    let back : accounts close_calls everything ≡ some nothing = unfold accounts account in refl in
    rw e (record { absent = refl; settled = all ∙ back })

close_nothing : (p : Platform) → p.data_ptr ≡ none → macos_close p ≡ p
unfolding macos_close
close_nothing p e = ground arith

pub close_again-IsFree : (p : Platform) → IsFree p → IsFree (macos_close p)
close_again-IsFree p v = rw (close_nothing p v.absent) v
