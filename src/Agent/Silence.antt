-- ===== src/Agent/Silence.antt =====
-- The audio of a call (src/lws_agent.c with src/lws_sess.c and src/lws_dev.c).
use lwsip.Common.{◌≡◌, ap, Bool, true, false, ◌&&◌, [], ◌∷◌, if◌then◌else◌, arith, pos}
use lwsip.Dev.Types.{Dev}
use lwsip.Dev.Transfer.{lws_dev_read_audio, transfer_guard}
use lwsip.Sess.Types.{Sess, connected, same_state, capture_read}
use lwsip.Sess.Media.{LoopEnv, frame_samples, send_audio, send_rtcp, send_media}
use lwsip.Agent.Types.{Agent}
use lwsip.Agent.Media.{sess_config}

-- Whatever the capture device, in every state: a session whose configuration is the one that the
-- agent makes sends nothing behind the reception. All it does is to ask the device for no samples, and
-- that only while connected, with a capture device and an encoder; the session stays as it is.
pub send_media_silent :
    {P : Type 0} (agent : Agent) (sess : Sess) (dev : Dev P) (buf : Bool) (env : LoopEnv)
    → sess.config ≡ sess_config agent
    → env.read_result ≡ (lws_dev_read_audio buf (pos (frame_samples sess)) dev).1
    → send_media env sess ≡ (
      sess,
      if same_state sess.state connected && (agent.has_capture && sess.audio_encoder)
          then capture_read 0 ∷ []
          else [],
    )
unfolding sess_config frame_samples lws_dev_read_audio transfer_guard send_media send_audio
    send_rtcp
send_media_silent agent sess dev buf env configured answer =
    let no_rate : sess.config.audio_sample_rate ≡ 0 = ap (λ c. c.audio_sample_rate) configured in
    let capture : sess.config.has_capture ≡ agent.has_capture =
      ap (λ c. c.has_capture) configured in
    let audio : sess.config.enable_audio ≡ true = ap (λ c. c.enable_audio) configured in
    let rtcp : sess.config.enable_rtcp ≡ false = ap (λ c. c.enable_rtcp) configured in
    let nothing : frame_samples sess ≡ 0 = omega arith in rw (nothing, send_media) (ground arith)
