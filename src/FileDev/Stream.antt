-- ===== src/FileDev/Stream.antt =====
-- Reading from a file as a stream of bytes.
use mathlib.Core.List.{append-nil, append_assoc}
use lwsip.Common.{
  ℕ, zero, suc, ◌%◌, ◌^◌, map, All, ◌+◌, ◌≤◌, ◌≡◌, refl, sym, ap, ◌∙◌, Bool-cases, inl, inr, true,
  false, none, some, List, [], ◌∷◌, ◌++◌, arith, length, length-append, take, drop, Bytes, ltb,
  ◌==◌, if◌then◌else◌, pos,
}
use lwsip.FileDev.Config.{ConfigUnion, audio_format, audio_channels}
use lwsip.FileDev.Data.{Frame, ReadStep, end_of_file, read_error, frames, FileData}
use lwsip.FileDev.Ops.{
  read_buffer_size, on_read_frame, on_read_frames, filled, fill, finish_read, file_read_audio,
  get_audio_frame_size,
}

-- The bytes of one track, in the order in which the reader will hand them out.
unfoldable pub frame_bytes : ℕ → List Frame → Bytes
frame_bytes track [] = []
frame_bytes track (f ∷ fs) =
    if f.track == track then f.bytes ++ frame_bytes track fs else frame_bytes track fs

unfoldable pub track_bytes : ℕ → List ReadStep → Bytes
unfolding frame_bytes
track_bytes track [] = []
track_bytes track (end_of_file ∷ steps) = track_bytes track steps
track_bytes track (read_error ∷ steps) = track_bytes track steps
track_bytes track (frames fs ∷ steps) = frame_bytes track fs ++ track_bytes track steps

-- What a device still has to give: its buffer, then what is left in the file.
abbrev pub remaining : FileData → Bytes
remaining d =
    d.read_buffer ++ elim d.reader [ none ↦ [] | some steps ↦ track_bytes d.audio_track steps ]

pub take-append-drop : (n : ℕ) (xs : Bytes) → take n xs ++ drop n xs ≡ xs
take-append-drop ℕ.zero xs = refl
take-append-drop (ℕ.suc n) [] = refl
take-append-drop (ℕ.suc n) (x ∷ xs) = rw (take-append-drop n xs)

on_read_frame-other :
    (f : Frame) (d : FileData) → (f.track == d.audio_track) ≡ false → on_read_frame f d ≡ d
unfolding on_read_frame
on_read_frame-other f d other = ground arith

on_read_frame-ours :
    (f : Frame) (d : FileData)
    → (f.track == d.audio_track) ≡ true
    → length d.read_buffer + length f.bytes ≤ read_buffer_size
    → on_read_frame f d
      ≡ record d { read_buffer = d.read_buffer ++ f.bytes; current_pts_ms = f.pts }
unfolding on_read_frame
on_read_frame-ours f d ours fits = ground arith

-- The frames of the track are appended to the buffer where there is room for all of them.
frames_absorbed :
    (fs : List Frame) (d : FileData)
    → length d.read_buffer + length (frame_bytes d.audio_track fs) ≤ read_buffer_size
    → ((on_read_frames fs d).read_buffer ≡ d.read_buffer ++ frame_bytes d.audio_track fs)
      × ((on_read_frames fs d).audio_track ≡ d.audio_track)
unfolding frame_bytes on_read_frames
frames_absorbed [] d h = (sym (append-nil d.read_buffer), refl)
frames_absorbed (f ∷ fs) d h = elim (Bool-cases (f.track == d.audio_track)) [
  | inl ours ↦
      let room : length d.read_buffer + (length f.bytes + length (frame_bytes d.audio_track fs))
          ≤ read_buffer_size =
        omega (arith, rw ours at h, length-append f.bytes (frame_bytes d.audio_track fs)) in
      let d1 : FileData = record d {
        read_buffer = d.read_buffer ++ f.bytes;
        current_pts_ms = f.pts;
      } in
      let (one, two) =
        frames_absorbed fs d1 (omega (arith, room, length-append d.read_buffer f.bytes)) in
      rw ours (
        rw (on_read_frame-ours f d ours (omega arith), on_read_frames)
          (one ∙ append_assoc d.read_buffer f.bytes (frame_bytes d.audio_track fs), two))
  | inr other ↦
      rw other
        (rw (on_read_frame-other f d other, on_read_frames) (frames_absorbed fs d (rw other at h)))
]

fill_enough :
    (need : ℕ) (steps : List ReadStep) (d : FileData)
    → ltb (length d.read_buffer) need ≡ false
    → fill need steps d ≡ filled (record d { reader = some steps })
unfolding fill
fill_enough need [] d h = rw h
fill_enough need (end_of_file ∷ steps) d h = rw h
fill_enough need (read_error ∷ steps) d h = rw h
fill_enough need (frames fs ∷ steps) d h = rw h

-- A buffer that lacks less than a frame has room for each group of frames.
abbrev pub Fit : (need track : ℕ) → List (List Frame) → Type 0
Fit need track = All (λ fs. need + length (frame_bytes track fs) ≤ read_buffer_size)

abbrev pub track_bytes_of : ℕ → List (List Frame) → Bytes
track_bytes_of track groups = track_bytes track (map frames groups)

fill-remaining :
    (need track : ℕ) (groups : List (List Frame)) (rest : List ReadStep) (d : FileData)
    → d.audio_track ≡ track
    → Fit need track groups
    → need ≤ length d.read_buffer + length (track_bytes_of track groups)
    → (e : FileData) × (fill need (map frames groups ++ rest) d ≡ filled e)
      × (need ≤ length e.read_buffer)
      × (remaining e ≡ d.read_buffer ++ track_bytes track (map frames groups ++ rest))
unfolding fill track_bytes
fill-remaining need track [] rest d on fit h = (
  record d { reader = some rest },
  fill_enough need rest d (ground arith),
  omega arith,
  rw on refl,
)
fill-remaining need track (fs ∷ groups) rest d on (room, fit) h =
    elim (Bool-cases (ltb (length d.read_buffer) need)) [
      | inl short ↦
          let d1 = on_read_frames fs d in
          let bytes = frame_bytes track fs in
          let all = map frames groups ++ rest in
          let (buffer, same_track) = frames_absorbed fs d (rw on (ground arith)) in
          let buffer1 : d1.read_buffer ≡ d.read_buffer ++ bytes =
            buffer ∙ ap (λ t. d.read_buffer ++ frame_bytes t fs) on in
          let enough : need ≤ length d1.read_buffer + length (track_bytes_of track groups) = omega (
            arith,
            ap (λ t. length t) buffer1,
            h,
            length-append d.read_buffer bytes,
            length-append bytes (track_bytes_of track groups),
          ) in
          let (e, done, long, same) =
            fill-remaining need track groups rest d1 (same_track ∙ on) fit enough in
          (
            e,
            rw short done,
            long,
            same
                ∙ ap (λ t. t ++ track_bytes track all) buffer1
                ∙ append_assoc d.read_buffer bytes (track_bytes track all),
          )
      | inr enough ↦ (
        record d { reader = some (map frames (fs ∷ groups) ++ rest) },
        fill_enough need (map frames (fs ∷ groups) ++ rest) d enough,
        ground arith,
        ap (λ t. d.read_buffer ++ track_bytes t (map frames (fs ∷ groups) ++ rest)) on,
      )
    ]

pub drop-append-le : (n : ℕ) (xs ys : Bytes) → n ≤ length xs → drop n (xs ++ ys) ≡ drop n xs ++ ys
drop-append-le zero xs ys h = refl
drop-append-le (suc n) [] ys h = absurd (omega arith)
drop-append-le (suc n) (x ∷ xs) ys h = drop-append-le n xs ys (omega arith)

pub take-append-le : (n : ℕ) (xs ys : Bytes) → n ≤ length xs → take n (xs ++ ys) ≡ take n xs
take-append-le zero xs ys h = refl
take-append-le (suc n) [] ys h = absurd (omega arith)
take-append-le (suc n) (x ∷ xs) ys h = ap (λ t. x ∷ t) (take-append-le n xs ys (omega arith))

remaining_opened :
    (d : FileData) (steps : List ReadStep)
    → d.reader ≡ some steps
    → remaining d ≡ d.read_buffer ++ track_bytes d.audio_track steps
remaining_opened d steps opened = rw opened

finish_read-remaining :
    (need samples : ℕ) (d e : FileData)
    → need ≤ length e.read_buffer
    → (d' : FileData) × (finish_read need samples d (filled e)
        ≡ (some d', pos samples, take need (remaining e)))
      × (remaining d' ≡ drop need (remaining e))
unfolding finish_read
finish_read-remaining need samples d e h =
    let rest : Bytes = elim e.reader [ none ↦ [] | some steps ↦ track_bytes e.audio_track steps ] in
    (
      record e {
        read_buffer = drop need e.read_buffer;
        samples_read = (e.samples_read + samples) % 2 ^ 32;
      },
      ap
          (λ t. (
            some (record e {
              read_buffer = drop need e.read_buffer;
              samples_read = (e.samples_read + samples) % 2 ^ 32;
            }),
            pos samples,
            t,
          ))
          (sym (take-append-le need e.read_buffer rest h)),
      sym (drop-append-le need e.read_buffer rest h),
    )

read_known :
    (config : ConfigUnion) (samples need : ℕ) (steps : List ReadStep) (d : FileData)
    → (samples == 0) ≡ false
    → d.reader ≡ some steps
    → get_audio_frame_size (audio_format config) (audio_channels config) samples ≡ some need
    → file_read_audio config samples (some d) ≡ finish_read need samples d (fill need steps d)
unfolding file_read_audio
read_known config samples need steps d some_samples opened known = ground arith

-- A file reader whose next results are groups of frames, none of which overflows the buffer, and
-- which has the bytes of a frame in its buffer and these groups: the read succeeds, delivers
-- exactly the next bytes of the stream, and leaves the rest of the stream. At least one sample is
-- asked for.
pub read-remaining :
    (config : ConfigUnion) (samples need : ℕ) (groups : List (List Frame)) (rest : List ReadStep)
    (d : FileData)
    → (samples == 0) ≡ false
    → d.reader ≡ some (map frames groups ++ rest)
    → get_audio_frame_size (audio_format config) (audio_channels config) samples ≡ some need
    → Fit need d.audio_track groups
    → need ≤ length d.read_buffer + length (track_bytes_of d.audio_track groups)
    → (d' : FileData) × (file_read_audio config samples (some d)
        ≡ (some d', pos samples, take need (remaining d)))
      × (remaining d' ≡ drop need (remaining d))
read-remaining config samples need groups rest d some_samples opened known fit h =
    let (e, done, long, same) = fill-remaining need d.audio_track groups rest d refl fit h in
    let all : remaining e ≡ remaining d =
      same ∙ sym (remaining_opened d (map frames groups ++ rest) opened) in
    let (d', one, two) = finish_read-remaining need samples d e long in
    (
      d',
      read_known config samples need (map frames groups ++ rest) d some_samples opened known
          ∙ ap (finish_read need samples d) done
          ∙ one
          ∙ ap (λ t. (some d', pos samples, take need t)) all,
      two ∙ ap (λ t. drop need t) all,
    )
