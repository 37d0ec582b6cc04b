-- ===== src/Sess/Sdp.antt =====
-- The local SDP, and how src/lws_sess.c looks for attributes in a remote one.
use lwsip.Common.{
  ℕ, ◌-◌, Bool, true, false, Option, none, some, [], ◌∷◌, ◌++◌, ◌||◌, leb, ◌==◌, if◌then◌else◌,
  is_some, Bytes, codes, strchr, strstr_after, length, take,
}
use lwsip.Common.Decimal.{decimal}
use lwsip.Sess.Types.{MediaDir, sendonly, recvonly, sendrecv, inactive, Config}

-- "\r\n"
abbrev pub crlf : Bytes
crlf = 13 ∷ 10 ∷ []

unfoldable pub payload_to_name : ℕ → Bytes
payload_to_name p =
    if p == 0
    then codes "PCMU"
    else if p == 8
    then codes "PCMA"
    else if p == 9
    then codes "G722"
    else codes "unknown"

-- Every branch of the switch returns 8000.
unfoldable pub payload_clock_rate : ℕ → ℕ
payload_clock_rate p = 8000

unfoldable pub dir_name : MediaDir → Bytes
dir_name sendrecv = codes "sendrecv"
dir_name sendonly = codes "sendonly"
dir_name recvonly = codes "recvonly"
dir_name inactive = codes "inactive"

-- `time(NULL)` and the local address in text; `none` is that no address was found.
unfoldable pub sdp_header : ℕ → Option Bytes → Bytes
sdp_header session_id address =
    let ip : Bytes = elim address [ none ↦ codes "0.0.0.0" | some a ↦ a ] in
    codes "v=0"
    ++ crlf
    ++ codes "o=lwsip "
    ++ decimal session_id
    ++ codes " "
    ++ decimal session_id
    ++ codes " IN IP4 "
    ++ ip
    ++ crlf
    ++ codes "s=lwsip media session"
    ++ crlf
    ++ codes "c=IN IP4 "
    ++ ip
    ++ crlf
    ++ codes "t=0 0"
    ++ crlf

unfoldable pub sdp_media : (port codec : ℕ) → MediaDir → Bytes
sdp_media port codec dir =
    codes "m=audio "
    ++ decimal port
    ++ codes " RTP/AVP "
    ++ decimal codec
    ++ crlf
    ++ codes "a=rtpmap:"
    ++ decimal codec
    ++ codes " "
    ++ payload_to_name codec
    ++ codes "/"
    ++ decimal (payload_clock_rate codec)
    ++ crlf
    ++ codes "a="
    ++ dir_name dir
    ++ crlf

-- LWS_SESS_MAX_SDP_SIZE
abbrev pub max_sdp_size : ℕ
max_sdp_size = 4096

-- What `local_sdp` holds afterwards, and whether the return value is 0. Where a `snprintf` does not
-- fit, it has written what fits.
unfoldable pub generate_local_sdp : (now : ℕ) → Option Bytes → (port : ℕ) → Config → Bytes × Bool
generate_local_sdp now address port config =
    let header = sdp_header now address in
    let media = sdp_media port config.audio_codec config.media_dir in
    if leb max_sdp_size (length header)
    then (take (max_sdp_size - 1) header, false)
    else if config.enable_audio
    then (if leb (max_sdp_size - length header) (length media)
        then (take (max_sdp_size - 1) (header ++ media), false)
        else (header ++ media, true))
    else (header, true)

unfoldable pub sdp_has_ice_attributes : Option Bytes → Bool
sdp_has_ice_attributes none = false
sdp_has_ice_attributes (some sdp) =
    is_some (strstr_after (codes "a=ice-ufrag:") sdp)
    || (is_some (strstr_after (codes "a=ice-pwd:") sdp)
        || is_some (strstr_after (codes "a=candidate:") sdp))

-- The text up to the first CR; without one up to the first LF; without either all of it.
unfoldable pub line_of : Bytes → Bytes
line_of s = elim (strchr 13 s) [
  | some (before, behind) ↦ before
  | none ↦ elim (strchr 10 s) [ some (before, behind) ↦ before | none ↦ s ]
]

-- The text that `value` receives; `none` is the return value -1.
unfoldable pub parse_sdp_attribute : (sdp attr : Bytes) → (value_size : ℕ) → Option Bytes
parse_sdp_attribute sdp attr value_size =
    elim (strstr_after (codes "a=" ++ attr ++ codes ":") sdp) [
      | none ↦ none
      | some behind ↦ some (take (value_size - 1) (line_of behind))
    ]
