-- ===== src/Sess/Handshake.antt =====
-- One session's offer handed to another session (src/lws_sess.c).
use lwsip.Common.{
  ◌≡◌, Bool-cases, inl, inr, ◌-◌, ◌≤◌, ◌<◌, ◌+◌, refl, ap, ℕ, leb, true, false, Option, none, some,
  List, [], ◌∷◌, ◌++◌, arith, ℤ, pos, Bytes, codes, length, length-append, is_some, strip_prefix,
}
use lwsip.Common.TextLaws.{Avoids, is_byte}
use lwsip.Common.Decimal.{length-decimal}
use lwsip.Sess.Types.{
  MediaDir, sendrecv, sendonly, recvonly, inactive, Config, Sess, rtp_direct, connected,
}
use lwsip.Sess.Sdp.{
  max_sdp_size, crlf, dir_name, payload_to_name, payload_clock_rate, sdp_header, sdp_media,
  generate_local_sdp, sdp_has_ice_attributes,
}
use lwsip.Sess.Control.{
  change_state, lws_sess_gather_candidates, lws_sess_start_ice, lws_sess_get_local_sdp,
}
use lwsip.Sess.Remote.{IceEnv, determine_mode, lws_sess_set_remote_sdp}
use lwsip.Sess.Offer.{
  join, header_pieces, media_pieces, address_text, header_join, media_join, offer-none,
}

no_ufrag :
    (d : MediaDir) (s : Bytes) → strip_prefix (codes "ice-ufrag:") (dir_name d ++ crlf ++ s) ≡ none
unfolding strip_prefix dir_name
no_ufrag sendrecv s = refl
no_ufrag sendonly s = refl
no_ufrag recvonly s = refl
no_ufrag inactive s = refl

no_pwd :
    (d : MediaDir) (s : Bytes) → strip_prefix (codes "ice-pwd:") (dir_name d ++ crlf ++ s) ≡ none
unfolding strip_prefix dir_name
no_pwd sendrecv s = refl
no_pwd sendonly s = refl
no_pwd recvonly s = refl
no_pwd inactive s = refl

no_candidate :
    (d : MediaDir) (s : Bytes) → strip_prefix (codes "candidate:") (dir_name d ++ crlf ++ s) ≡ none
unfolding strip_prefix dir_name
no_candidate sendrecv s = refl
no_candidate sendonly s = refl
no_candidate recvonly s = refl
no_candidate inactive s = refl

-- An address in text: at most 15 bytes, as INET_ADDRSTRLEN allows, and no letter `a`.
abbrev pub IsAddress : Option Bytes → Type 0
IsAddress none = Unit
IsAddress (some ip) = (length ip ≤ 15) × Avoids (is_byte b'a') ip

address_plain :
    (address : Option Bytes) → IsAddress address → Avoids (is_byte b'a') (address_text address)
unfolding address_text
address_plain none h = ground arith
address_plain (some ip) h = h.1

address_bound : (address : Option Bytes) → IsAddress address → length (address_text address) ≤ 15
unfolding address_text
address_bound none h = omega arith
address_bound (some ip) h = h.0

abbrev total : List Bytes → ℕ
total [] = 0
total (p ∷ ps) = length p + total ps

length-join : (ps : List Bytes) → length (join ps) ≡ total ps
unfolding join
length-join [] = refl
length-join (p ∷ ps) = omega (arith, length-append p (join ps), length-join ps)

header_bound :
    (now : ℕ) (address : Option Bytes) → IsAddress address → length (sdp_header now address) ≤ 200
header_bound now address h = omega (
  arith,
  ap (λ s. length s) (header_join now address),
  length-join (header_pieces now (address_text address)),
  address_bound address h,
  length-decimal now,
)

name_bound : (codec : ℕ) → length (payload_to_name codec) ≤ 7
unfolding payload_to_name
name_bound codec = ground arith

dir_bound : (d : MediaDir) → length (codes "a=" ++ dir_name d ++ crlf) ≤ 12
unfolding dir_name
dir_bound sendrecv = omega arith
dir_bound sendonly = omega arith
dir_bound recvonly = omega arith
dir_bound inactive = omega arith

media_bound : (port codec : ℕ) (d : MediaDir) → length (sdp_media port codec d) ≤ 200
media_bound port codec d = omega (
  arith,
  ap (λ s. length s) (media_join port codec d),
  length-join (media_pieces port codec d),
  length-decimal port,
  length-decimal codec,
  length-decimal (payload_clock_rate codec),
  name_bound codec,
  dir_bound d,
)

not_leb : (a b : ℕ) → b < a → leb a b ≡ false
not_leb a b h = ground arith

-- For every port, codec, direction and local address, the local SDP fits its buffer: it is generated,
-- with its terminating zero inside the 4096 bytes.
pub generate_fits :
    (now : ℕ) (address : Option Bytes) (port : ℕ) (config : Config)
    → IsAddress address
    → let r = generate_local_sdp now address port config in
      (r.1 ≡ true) × (length r.0 < max_sdp_size)
unfolding generate_local_sdp
generate_fits now address port config h =
    let header = sdp_header now address in
    let media = sdp_media port config.audio_codec config.media_dir in
    let small : length header ≤ 200 = header_bound now address h in
    let small' : length media ≤ 200 = media_bound port config.audio_codec config.media_dir in
    let one : leb max_sdp_size (length header) ≡ false =
      not_leb max_sdp_size (length header) (omega arith) in
    let two : leb (max_sdp_size - length header) (length media) ≡ false =
      not_leb (max_sdp_size - length header) (length media) (omega arith) in
    elim (Bool-cases config.enable_audio) [
      | inl audio ↦
          rw (one, generate_local_sdp)
            (rw (audio, generate_local_sdp)
              (rw (two, generate_local_sdp) (refl, omega (arith, length-append header media))))
      | inr silent ↦
          rw (one, generate_local_sdp) (rw (silent, generate_local_sdp) (refl, omega arith))
    ]

offer_without_ice :
    (now : ℕ) (address : Option Bytes) (port : ℕ) (config : Config)
    → IsAddress address
    → sdp_has_ice_attributes (some (generate_local_sdp now address port config).0) ≡ false
unfolding sdp_has_ice_attributes
offer_without_ice now address port config h =
    let plain = address_plain address h in
    let done = (generate_fits now address port config h).0 in
    let ufrag =
      offer-none (codes "ice-ufrag:") (λ s. unfold strip_prefix in refl) no_ufrag now address port
        config plain done in
    let pwd =
      offer-none (codes "ice-pwd:") (λ s. unfold strip_prefix in refl) no_pwd now address port
        config plain done in
    let candidate =
      offer-none (codes "candidate:") (λ s. unfold strip_prefix in refl) no_candidate now address
        port config plain done in
    rw (ufrag, pwd, candidate)

-- A session gathers and hands its SDP to another one, whose mode is not determined yet and which then
-- starts ICE: the SDP is there, it is taken, and the other session is connected in RTP direct mode.
pub offer-connected :
    (a b : Sess) (now : ℕ) (address : Option Bytes) (env : IceEnv) (ret : ℤ)
    → IsAddress address
    → b.transport_mode_determined ≡ false
    → let offer = lws_sess_get_local_sdp (lws_sess_gather_candidates now address a).0 in
      let taken = lws_sess_set_remote_sdp env offer b in
      let started = lws_sess_start_ice ret taken.0 in
      (is_some offer ≡ true)
      × (taken.1 ≡ pos 0)
      × (started.1 ≡ pos 0)
      × (started.0.state ≡ connected)
      × (started.0.active_transport_mode ≡ rtp_direct)
unfolding lws_sess_gather_candidates lws_sess_get_local_sdp lws_sess_set_remote_sdp
    lws_sess_start_ice determine_mode change_state
offer-connected a b now address env ret h fresh =
    let (done, short) = generate_fits now address a.local_port a.config h in
    let plain = offer_without_ice now address a.local_port a.config h in ground (arith, done, plain)
