-- ===== src/Sess/Offer.antt =====
-- The SDP that a session offers, read by another session (src/lws_sess.c).
use lwsip.Common.{
  All, ◌≡◌, refl, sym, ◌∙◌, ap, ℕ, ◌==◌, true, false, Option, none, some, List, [], ◌∷◌, ◌++◌,
  arith, Bytes, codes, strip_prefix, strstr_after,
}
use mathlib.Core.Path.{subst}
use mathlib.Core.List.{append_assoc, append-nil}
use lwsip.Common.TextLaws.{Avoids, is_byte}
use lwsip.Common.Decimal.{decimal, Digits, Digits-decimal}
use lwsip.Sess.Types.{MediaDir, sendonly, recvonly, sendrecv, inactive, Config}
use lwsip.Sess.Sdp.{
  crlf, payload_to_name, payload_clock_rate, dir_name, sdp_header, sdp_media, generate_local_sdp,
}

-- A needle that begins with `a` is not found before the first `a`.
strstr-Avoids :
    (needle xs ys : Bytes)
    → Avoids (is_byte b'a') xs
    → strstr_after (b'a' ∷ needle) (xs ++ ys) ≡ strstr_after (b'a' ∷ needle) ys
unfolding strstr_after strip_prefix
strstr-Avoids needle [] ys h = refl
strstr-Avoids needle (c ∷ xs) ys (h, k) =
    let different : (b'a' == c) ≡ false = ground arith in
    rw (different, strstr_after, strip_prefix) (strstr-Avoids needle xs ys k)

Digits-Avoids : (xs : Bytes) → Digits xs → Avoids (is_byte b'a') xs
Digits-Avoids [] h = tt
Digits-Avoids (c ∷ xs) (h, k) = (ground arith, Digits-Avoids xs k)

-- The texts that no match of the needle begins in or runs across.
abbrev Passed : Bytes → Bytes → Type 0
Passed needle xs = (ys : Bytes) → strstr_after needle (xs ++ ys) ≡ strstr_after needle ys

Passed-append :
    (needle xs ys : Bytes) → Passed needle xs → Passed needle ys → Passed needle (xs ++ ys)
Passed-append needle xs ys p q zs =
    ap (strstr_after needle) (append_assoc xs ys zs) ∙ p (ys ++ zs) ∙ q zs

unfoldable pub join : List Bytes → Bytes
join [] = []
join (p ∷ ps) = p ++ join ps

-- The texts of which the SDP is put together.
abbrev pub header_pieces : ℕ → Bytes → List Bytes
header_pieces session_id ip =
    codes "v=0\r\no=lwsip "
    ∷ decimal session_id
    ∷ codes " "
    ∷ decimal session_id
    ∷ codes " IN IP4 "
    ∷ ip
    ∷ codes "\r\ns=lwsip media session\r\nc=IN IP4 "
    ∷ ip
    ∷ codes "\r\nt=0 0\r\n"
    ∷ []

abbrev pub media_pieces : ℕ → ℕ → MediaDir → List Bytes
media_pieces port codec dir =
    codes "m=audio "
    ∷ decimal port
    ∷ codes " RTP/AVP "
    ∷ decimal codec
    ∷ crlf
    ∷ codes "a=rtpmap:"
    ∷ decimal codec
    ∷ codes " "
    ∷ payload_to_name codec
    ∷ codes "/"
    ∷ decimal (payload_clock_rate codec)
    ∷ crlf
    ∷ (codes "a=" ++ dir_name dir ++ crlf)
    ∷ []

unfoldable pub address_text : Option Bytes → Bytes
address_text none = codes "0.0.0.0"
address_text (some ip) = ip

pub header_join :
    (session_id : ℕ) (address : Option Bytes)
    → sdp_header session_id address ≡ join (header_pieces session_id (address_text address))
unfolding sdp_header join address_text
header_join session_id none = simp (append_assoc, append-nil)
header_join session_id (some ip) = simp (append_assoc, append-nil)

pub media_join :
    (port codec : ℕ) (dir : MediaDir)
    → sdp_media port codec dir ≡ join (media_pieces port codec dir)
unfolding sdp_media join
media_join port codec dir = simp (append_assoc, append-nil)

payload_to_name-Avoids : (codec : ℕ) → Avoids (is_byte b'a') (payload_to_name codec)
unfolding payload_to_name
payload_to_name-Avoids codec = ground arith

module _ (n : Bytes) (no_rtpmap : (s : Bytes) → strip_prefix n (codes "rtpmap:" ++ s) ≡ none)
    (no_dir : (d : MediaDir) (s : Bytes) → strip_prefix n (dir_name d ++ crlf ++ s) ≡ none) where
  abbrev Skips : Bytes → Type 0
  Skips = Passed (b'a' ∷ b'=' ∷ n)

  join-Skips : (ps : List Bytes) → All Skips ps → Skips (join ps)
  unfolding join
  join-Skips [] h = λ ys. refl
  join-Skips (p ∷ ps) (h, k) = Passed-append (b'a' ∷ b'=' ∷ n) p (join ps) h (join-Skips ps k)

  plain-Skips : (xs : Bytes) → Avoids (is_byte b'a') xs → Skips xs
  plain-Skips xs h ys = strstr-Avoids (b'=' ∷ n) xs ys h

  decimal-Skips : (k : ℕ) → Skips (decimal k)
  decimal-Skips k = plain-Skips (decimal k) (Digits-Avoids (decimal k) (Digits-decimal k))

  rtpmap-Skips : Skips (codes "a=rtpmap:")
  unfolding strstr_after strip_prefix
  rtpmap-Skips ys = rw (no_rtpmap ys)

  dir-Skips : (d : MediaDir) → Skips (codes "a=" ++ dir_name d ++ crlf)
  unfolding strstr_after strip_prefix dir_name
  dir-Skips sendrecv ys = rw (no_dir sendrecv ys)
  dir-Skips sendonly ys = rw (no_dir sendonly ys)
  dir-Skips recvonly ys = rw (no_dir recvonly ys)
  dir-Skips inactive ys = rw (no_dir inactive ys)

  name-Skips : (codec : ℕ) → Skips (payload_to_name codec)
  name-Skips codec = plain-Skips (payload_to_name codec) (payload_to_name-Avoids codec)

  header-Skips :
      (session_id : ℕ) (address : Option Bytes)
      → Avoids (is_byte b'a') (address_text address)
      → Skips (sdp_header session_id address)
  unfolding strstr_after strip_prefix
  header-Skips session_id address h =
      let ip = address_text address in
      subst Skips (sym (header_join session_id address)) (
        join-Skips (header_pieces session_id ip) (
          λ ys. refl,
          (
            decimal-Skips session_id,
            (
              λ ys. refl,
              (
                decimal-Skips session_id,
                (
                  λ ys. refl,
                  (plain-Skips ip h, (λ ys. refl, (plain-Skips ip h, (λ ys. refl, tt)))),
                ),
              ),
            ),
          ),
        ))

  media-Skips : (port codec : ℕ) (dir : MediaDir) → Skips (sdp_media port codec dir)
  unfolding strstr_after strip_prefix
  media-Skips port codec dir = subst Skips (sym (media_join port codec dir)) (
      join-Skips (media_pieces port codec dir) (
        λ ys. refl,
        (
          decimal-Skips port,
          (
            λ ys. refl,
            (
              decimal-Skips codec,
              (
                λ ys. refl,
                (
                  rtpmap-Skips,
                  (
                    decimal-Skips codec,
                    (
                      λ ys. refl,
                      (
                        name-Skips codec,
                        (
                          λ ys. refl,
                          (
                            decimal-Skips (payload_clock_rate codec),
                            (λ ys. refl, (dir-Skips dir, tt)),
                          ),
                        ),
                      ),
                    ),
                  ),
                ),
              ),
            ),
          ),
        ),
      ))

  -- The generated SDP has no such attribute.
  pub offer-none :
      (now : ℕ) (address : Option Bytes) (port : ℕ) (config : Config)
      → Avoids (is_byte b'a') (address_text address)
      → (generate_local_sdp now address port config).1 ≡ true
      → strstr_after (b'a' ∷ b'=' ∷ n) (generate_local_sdp now address port config).0 ≡ none
  unfolding generate_local_sdp
  offer-none now address port config plain done =
      let needle = b'a' ∷ b'=' ∷ n in
      let header = sdp_header now address in
      let media = sdp_media port config.audio_codec config.media_dir in
      let ends : strstr_after needle [] ≡ none = unfold strstr_after strip_prefix in refl in
      let first : strstr_after needle header ≡ none =
        ap (strstr_after needle) (sym (append-nil header))
        ∙ header-Skips now address plain []
        ∙ ends in
      let second : strstr_after needle (header ++ media) ≡ none =
        header-Skips now address plain media
        ∙ ap (strstr_after needle) (sym (append-nil media))
        ∙ media-Skips port config.audio_codec config.media_dir []
        ∙ ends in
      ground arith
