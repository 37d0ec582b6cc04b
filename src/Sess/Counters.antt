-- ===== src/Sess/Counters.antt =====
-- The RTP clock and the counters of a session (lws_sess_loop of src/lws_sess.c).
use lwsip.Common.{◌≡◌, refl, ℕ, ◌/◌, ◌%◌, ◌^◌, none, some, List, [], ◌∷◌, arith, ℤ, pos_part}
use lwsip.Sess.Types.{Sess}
use lwsip.Sess.Control.{change_state, lws_sess_gather_candidates, lws_sess_start_ice, lws_sess_stop}
use lwsip.Sess.Remote.{determine_mode, process_ice, lws_sess_set_remote_sdp}
use lwsip.Sess.Media.{
  Decoded, LoopEnv, rtp_packet, rtp_packets, process_packet, receive_all, receive, send_audio,
  send_rtcp, count_sent, send_media, lws_sess_loop,
}
use lwsip.Sess.Calls.{
  SessCall, gather_call, remote_call, start_call, loop_call, stop_call, sess_call, sess_calls,
}

-- The RTP clock shows the samples sent: half the bytes sent, modulo 2^32; and the time stamp in the
-- statistics is the clock once something was sent.
abbrev pub IsConsistent : Sess → Type 0
IsConsistent sess =
    (sess.audio_stats.sent_bytes % 2 ≡ 0)
    × (sess.audio_stats.sent_bytes / 2 % 2 ^ 32 ≡ sess.audio_timestamp)
    × (sess.audio_stats.sent_timestamp ≡ sess.audio_timestamp)

rtp_packet-IsConsistent :
    (d : Decoded) (sess : Sess) → IsConsistent sess → IsConsistent (rtp_packet d sess).0
unfolding rtp_packet
rtp_packet-IsConsistent d sess h = h

rtp_packets-IsConsistent :
    (ds : List Decoded) (sess : Sess) → IsConsistent sess → IsConsistent (rtp_packets ds sess).0
unfolding rtp_packets
rtp_packets-IsConsistent [] sess h = h
rtp_packets-IsConsistent (d ∷ ds) sess h =
    rtp_packets-IsConsistent ds (rtp_packet d sess).0 (rtp_packet-IsConsistent d sess h)

process_packet-IsConsistent :
    (bytes : ℕ) (ds : List Decoded) (sess : Sess)
    → IsConsistent sess
    → IsConsistent (process_packet bytes ds sess).0
unfolding process_packet
process_packet-IsConsistent bytes ds sess h = ground (arith, rtp_packets-IsConsistent ds sess h)

receive_all-IsConsistent :
    (ps : List (ℕ × List Decoded)) (sess : Sess)
    → IsConsistent sess
    → IsConsistent (receive_all ps sess).0
unfolding receive_all
receive_all-IsConsistent [] sess h = h
receive_all-IsConsistent (p ∷ ps) sess h =
    receive_all-IsConsistent ps (process_packet p.0 p.1 sess).0
      (process_packet-IsConsistent p.0 p.1 sess h)

receive-IsConsistent :
    (env : LoopEnv) (sess : Sess) → IsConsistent sess → IsConsistent (receive env sess).0
unfolding receive
receive-IsConsistent env sess h = ground (arith, receive_all-IsConsistent env.received sess h)

count_sent-IsConsistent :
    (samples : ℕ) (sess : Sess) → IsConsistent sess → IsConsistent (count_sent samples sess)
unfolding count_sent
count_sent-IsConsistent samples sess (even, half, same) = (omega arith, omega arith, refl)

send_audio-IsConsistent :
    (samples : ℤ) (sess : Sess) → IsConsistent sess → IsConsistent (send_audio samples sess).0
unfolding send_audio
send_audio-IsConsistent samples sess h =
    ground (arith, count_sent-IsConsistent (pos_part samples) sess h)

send_rtcp-IsConsistent :
    (env : LoopEnv) (sess : Sess) → IsConsistent sess → IsConsistent (send_rtcp env sess).0
unfolding send_rtcp
send_rtcp-IsConsistent env sess h = ground arith

send_media-IsConsistent :
    (env : LoopEnv) (sess : Sess) → IsConsistent sess → IsConsistent (send_media env sess).0
unfolding send_media
send_media-IsConsistent env sess h =
    let audio = send_audio-IsConsistent env.read_result sess h in
    let rtcp = send_rtcp-IsConsistent env (send_audio env.read_result sess).0 audio in
    ground (arith, rtcp)

control-IsConsistent :
    (c : SessCall) (sess : Sess) → IsConsistent sess → IsConsistent (sess_call c sess).0
unfolding sess_call lws_sess_gather_candidates lws_sess_start_ice lws_sess_stop change_state
    lws_sess_set_remote_sdp process_ice determine_mode lws_sess_loop
control-IsConsistent (gather_call now address) sess h = ground arith
control-IsConsistent (remote_call env none) sess h = h
control-IsConsistent (remote_call env (some sdp)) sess h = ground arith
control-IsConsistent (start_call ret) sess h = ground arith
control-IsConsistent (loop_call env) sess h =
    send_media-IsConsistent env (receive env sess).0 (receive-IsConsistent env sess h)
control-IsConsistent stop_call sess h = ground arith

-- Over any sequence of calls of the session API, from a session whose clock fits its counters on,
-- as that of a new session does: the RTP clock is the number of samples sent, which is half of the
-- bytes counted, modulo 2^32, and the time stamp in the statistics is that clock.
pub calls-IsConsistent :
    (cs : List SessCall) (sess : Sess) → IsConsistent sess → IsConsistent (sess_calls cs sess).0
unfolding sess_calls
calls-IsConsistent [] sess h = h
calls-IsConsistent (c ∷ cs) sess h =
    calls-IsConsistent cs (sess_call c sess).0 (control-IsConsistent c sess h)
