-- ===== src/DevMacos/Ring.antt =====
-- The ring buffer of src/lws_dev_macos.c. `audio_input_callback` and `macos_write_audio` put bytes
-- into it by the same statements, `audio_output_callback` and `macos_read_audio` take them out.
use lwsip.Common.{ℕ, ◌+◌, ◌-◌, ◌%◌, ◌^◌, ◌++◌, if◌then◌else◌, leb, Bytes, take, drop, length}
use lwsip.Common.Memory.{write_at, read_at}

-- size_t addition and subtraction
abbrev pub add_size : ℕ → ℕ → ℕ
add_size a b = (a + b) % 2 ^ 64

abbrev pub sub_size : ℕ → ℕ → ℕ
sub_size a b = (a + 2 ^ 64 - b) % 2 ^ 64

-- The members of `lws_dev_macos_data_t` whose names begin with `ring_buffer`.
pub record Ring : Type 0 where
  pub bytes : Bytes
  pub size : ℕ
  pub read_pos : ℕ
  pub write_pos : ℕ
  pub used : ℕ

abbrev pub ring_free : Ring → ℕ
ring_free r = sub_size r.size r.used

-- The writer has found that there is room.
unfoldable pub ring_put : Bytes → Ring → Ring
ring_put input r =
    let n = length input in
    let to_end = sub_size r.size r.write_pos in
    let used = add_size r.used n in
    if leb n to_end
    then record r {
      bytes = write_at r.write_pos input r.bytes;
      write_pos = add_size r.write_pos n % r.size;
      used = used;
    }
    else record r {
      bytes = write_at 0 (drop to_end input) (write_at r.write_pos (take to_end input) r.bytes);
      write_pos = sub_size n to_end;
      used = used;
    }

-- The reader has found that `n` bytes are there.
unfoldable pub ring_get : ℕ → Ring → Ring × Bytes
ring_get n r =
    let to_end = sub_size r.size r.read_pos in
    let used = sub_size r.used n in
    if leb n to_end
    then (
      record r { read_pos = add_size r.read_pos n % r.size; used = used },
      read_at r.read_pos n r.bytes,
    )
    else (
      record r { read_pos = sub_size n to_end; used = used },
      read_at r.read_pos to_end r.bytes ++ read_at 0 (sub_size n to_end) r.bytes,
    )

unfoldable pub ring_clear : Ring → Ring
ring_clear r = record r { read_pos = 0; write_pos = 0; used = 0 }
