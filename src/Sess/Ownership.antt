-- ===== src/Sess/Ownership.antt =====
-- What a session owns between its creation and its destruction (src/lws_sess.c).
use lwsip.Common.{
  ◌≡◌, Bool, true, false, Option, none, some, List, [], ◌∷◌, ◌++◌, ◌&&◌, arith, if◌then◌else◌,
}
use lwsip.Sess.Types.{Config, Handlers, Sess}
use lwsip.Sess.Create.{
  memory, media_socket, rtp_session, encoder, decoder, agent, Ownership, acquire, release,
  release_null, Resource, CreateEnv, create_codecs, lws_sess_create, lws_sess_destroy,
}

-- Which resources are held.
pub record Held : Type 0 where
  pub has_memory : Bool
  pub has_socket : Bool
  pub has_rtp : Bool
  pub has_encoder : Bool
  pub has_decoder : Bool

abbrev pub nothing : Held
nothing = record {
  has_memory = false;
  has_socket = false;
  has_rtp = false;
  has_encoder = false;
  has_decoder = false;
}

-- `none` is a resource that is released without being held, or acquired twice.
unfoldable pub take_step : Ownership → Held → Option Held
take_step (acquire memory) h = if h.has_memory then none else some (record h { has_memory = true })
take_step (release memory) h = if h.has_memory then some (record h { has_memory = false }) else none
take_step (acquire media_socket) h =
    if h.has_socket then none else some (record h { has_socket = true })
take_step (release media_socket) h =
    if h.has_socket then some (record h { has_socket = false }) else none
take_step (acquire rtp_session) h = if h.has_rtp then none else some (record h { has_rtp = true })
take_step (release rtp_session) h = if h.has_rtp then some (record h { has_rtp = false }) else none
take_step (acquire encoder) h =
    if h.has_encoder then none else some (record h { has_encoder = true })
take_step (release encoder) h =
    if h.has_encoder then some (record h { has_encoder = false }) else none
take_step (acquire decoder) h =
    if h.has_decoder then none else some (record h { has_decoder = true })
take_step (release decoder) h =
    if h.has_decoder then some (record h { has_decoder = false }) else none
take_step (acquire agent) h = none
take_step (release agent) h = none
take_step (release_null r) h = some h

unfoldable pub take_steps : List Ownership → Held → Option Held
unfolding take_step
take_steps [] h = some h
take_steps (o ∷ os) h = elim (take_step o h) [ none ↦ none | some h' ↦ take_steps os h' ]

-- A session that was created and is destroyed has given back all that it took, each thing once.
pub destroy-create :
    (env : CreateEnv) (config : Config) (handler : Handlers) (sess : Sess)
    → (lws_sess_create env config handler).0 ≡ some sess
    → take_steps ((lws_sess_create env config handler).1 ++ (lws_sess_destroy sess).1) nothing
      ≡ some nothing
unfolding lws_sess_create create_codecs lws_sess_destroy take_steps take_step
destroy-create env config handler sess h = ground arith

-- The calls that give back a resource and are made with NULL.
unfoldable pub null_releases : List Ownership → List Resource
null_releases [] = []
null_releases (release_null r ∷ os) = r ∷ null_releases os
null_releases (_ ∷ os) = null_releases os

-- A creation that fails gives back all that it took, except that the media socket stays open
-- whenever it had been made and bound; and exactly then ice_agent_destroy is called, once and with
-- NULL.
pub create_failure :
    (env : CreateEnv) (config : Config) (handler : Handlers)
    → (lws_sess_create env config handler).0 ≡ none
    → let bound = env.allocated && (env.socket_made && env.bound) in
      let os = (lws_sess_create env config handler).1 in
      (take_steps os nothing ≡ some (record nothing { has_socket = bound }))
      × (null_releases os ≡ (if bound then agent ∷ [] else []))
unfolding lws_sess_create create_codecs take_steps take_step null_releases
create_failure env config handler h = (ground arith, ground arith)
