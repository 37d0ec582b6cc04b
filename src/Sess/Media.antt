-- ===== src/Sess/Media.antt =====
-- Sending and receiving media (lws_sess_loop and its callbacks in src/lws_sess.c).
use lwsip.Common.{
  ℕ, ◌+◌, ◌-◌, ◌*◌, ◌/◌, ◌%◌, ◌^◌, List, [], ◌∷◌, ◌++◌, ◌&&◌, not, ltb, leb, if◌then◌else◌, ℤ, pos,
  is_neg, is_pos, pos_part,
}
use lwsip.Sess.Types.{
  connected, same_state, is_direct, SessEvent, decode_input, ice_input, ice_send, playback_write,
  record_write, capture_read, encode_input, Sess,
}

-- A packet that the decoder of librtp hands back: its size and its time stamp.
pub record Decoded : Type 0 where
  pub bytes : ℕ
  pub timestamp : ℕ

-- What the socket, librtp, libice and the capture device answer while the loop runs once. A
-- received packet comes with what the decoder makes of it.
pub record LoopEnv : Type 0 where
  pub received : List (ℕ × List Decoded)
  pub read_result : ℤ
  pub now : ℕ
  pub rtcp_interval : ℤ
  pub rtcp_length : ℤ

unfoldable pub rtp_packet : Decoded → Sess → Sess × List SessEvent
rtp_packet d sess =
    let samples = d.bytes / 2 in
    (
      record sess {
        audio_stats = record sess.audio_stats {
          recv_packets = (sess.audio_stats.recv_packets + 1) % 2 ^ 64;
          recv_bytes = (sess.audio_stats.recv_bytes + d.bytes) % 2 ^ 64;
          recv_timestamp = d.timestamp;
        };
      },
      (if sess.config.has_playback then playback_write samples ∷ [] else [])
          ++ (if sess.config.has_record then record_write samples ∷ [] else []),
    )

unfoldable pub rtp_packets : List Decoded → Sess → Sess × List SessEvent
rtp_packets [] sess = (sess, [])
rtp_packets (d ∷ ds) sess =
    let (sess1, es1) = rtp_packet d sess in
    let (sess2, es2) = rtp_packets ds sess1 in (sess2, es1 ++ es2)

-- The branch taken for a packet of `bytes` bytes.
unfoldable pub process_packet : (bytes : ℕ) → List Decoded → Sess → Sess × List SessEvent
process_packet bytes ds sess =
    if sess.ice_agent
    then (sess, ice_input bytes ∷ [])
    else if is_direct sess.active_transport_mode && (sess.audio_decoder && ltb 12 bytes)
    then (let (sess1, es1) = rtp_packets ds sess in (sess1, decode_input bytes ∷ es1))
    else (sess, [])

-- The loop over `recvfrom`.
unfoldable pub receive_all : List (ℕ × List Decoded) → Sess → Sess × List SessEvent
receive_all [] sess = (sess, [])
receive_all (p ∷ ps) sess =
    let (sess1, es1) = process_packet p.0 p.1 sess in
    let (sess2, es2) = receive_all ps sess1 in (sess2, es1 ++ es2)

-- LWS_DEFAULT_FRAME_DURATION is 20.
unfoldable pub frame_samples : Sess → ℕ
frame_samples sess = sess.config.audio_sample_rate * 20 / 1000

unfoldable pub count_sent : ℕ → Sess → Sess
count_sent samples sess =
    let timestamp = (sess.audio_timestamp + samples) % 2 ^ 32 in
    record sess {
      audio_timestamp = timestamp;
      audio_stats = record sess.audio_stats {
        sent_packets = (sess.audio_stats.sent_packets + 1) % 2 ^ 64;
        sent_bytes = (sess.audio_stats.sent_bytes + samples * 2) % 2 ^ 64;
        sent_timestamp = timestamp;
      };
    }

-- `samples` is what `lws_dev_read_audio` returns.
unfoldable pub send_audio : (samples : ℤ) → Sess → Sess × List SessEvent
send_audio samples sess =
    if sess.config.enable_audio && (sess.config.has_capture && sess.audio_encoder)
    then (if is_pos samples
        then (
          count_sent (pos_part samples) sess,
          capture_read (frame_samples sess)
              ∷ encode_input (pos_part samples * 2) sess.audio_timestamp
              ∷ [],
        )
        else (sess, capture_read (frame_samples sess) ∷ []))
    else (sess, [])

-- The interval is in milliseconds, `now` and the last report in microseconds; the difference is
-- taken in uint64_t.
unfoldable pub send_rtcp : LoopEnv → Sess → Sess × List SessEvent
send_rtcp env sess =
    if sess.rtp
      && (sess.config.enable_rtcp
          && (not (is_neg env.rtcp_interval)
              && leb (pos_part env.rtcp_interval * 1000)
                  ((env.now + 2 ^ 64 - sess.last_rtcp_time) % 2 ^ 64)))
    then (if is_pos env.rtcp_length
        then (
          record sess { last_rtcp_time = env.now },
          ice_send sess.ice_agent (pos_part env.rtcp_length) ∷ [],
        )
        else (sess, []))
    else (sess, [])

-- The part of the loop behind the reception.
unfoldable pub send_media : LoopEnv → Sess → Sess × List SessEvent
send_media env sess =
    if same_state sess.state connected
    then (let (sess1, es1) = send_audio env.read_result sess in
        let (sess2, es2) = send_rtcp env sess1 in (sess2, es1 ++ es2))
    else (sess, [])

-- The part of the loop before `send_media`.
unfoldable pub receive : LoopEnv → Sess → Sess × List SessEvent
receive env sess = if sess.media_socket then receive_all env.received sess else (sess, [])

unfoldable pub lws_sess_loop : LoopEnv → Sess → Sess × ℤ × List SessEvent
lws_sess_loop env sess =
    let (sess1, es1) = receive env sess in
    let (sess2, es2) = send_media env sess1 in (sess2, pos 0, es1 ++ es2)
