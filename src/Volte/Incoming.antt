-- ===== src/Volte/Incoming.antt =====
-- SIP messages that arrive (ims/volte.py: _handle_incoming_sip and what it calls), with
-- RadioHAL.incoming_call of hal/radio_hal.py.
use virtual_phone.Prelude.{
  ℕ, ◌+◌, Bool, true, false, ◌||◌, Option, none, some, List, [], ◌∷◌, if◌then◌else◌, Result, ok,
  raised, index_error, text_key,
}
use virtual_phone.Sms.Gsm7.{Text}
use virtual_phone.Texts.{codes, contains}
use virtual_phone.Sdp.{build_sdp_offer, extract_number_from_uri}
use virtual_phone.Forwarding.{unconditional, should_forward, Rules}
use virtual_phone.Volte.Media.{hold_media, resume_media}
use virtual_phone.Volte.Outgoing.{begin_call, finish_call, hangup_call}
use virtual_phone.Volte.State.{
  Phone, VoiceCall, VolteCall, VolteCallState, Direction, CallState, Method, Reply, call_for,
  put_call, drop_call, recount, reply, indicate, update_call_state, on_radio, to_radio, local_ip_of,
}
use virtual_phone.Volte.Voice.{is_active_voice, first_voice, add_voice, indicated}

-- What the handlers read of a SIP message.
pub record Message : Type 0 where
  pub is_response : Bool
  pub status_code : ℕ
  pub method : Method
  pub call_id : Text
  pub from_header : Text
  pub body : Text
  pub refer_to : Text
  pub event : Text
  pub subscription_state : Text

-- What the environment brings to a handler that starts a call: its Call-ID, how the INVITE ends, and
-- whether the media session starts.
pub record Fresh : Type 0 where
  pub id : Text
  pub result : Reply
  pub starts : Bool

-- initiate_call with nothing in between.
abbrev pub initiated : Reply → Bool → Phone × Option VolteCall → Phone × Result (Option Text)
initiated result starts (p, none) = (p, ok none)
initiated result starts (p, some waiting) = finish_call result starts waiting p

unfoldable pub initiate_call : Fresh → Text → ℕ → Phone → Phone × Result (Option Text)
unfolding begin_call finish_call
initiate_call fresh number index p =
    initiated fresh.result fresh.starts (begin_call fresh.id number index p)

-- The number that calls go to unconditionally; an empty one counts as none.
abbrev pub forward_number : Option Rules → Option Text
forward_number none = none
forward_number (some rules) = elim (should_forward unconditional rules) [
  | none ↦ none
  | some [] ↦ none
  | some (c ∷ number) ↦ some (c ∷ number)
]

-- WAITING if there is an active call, else INCOMING.
abbrev pub arriving : Option VoiceCall → CallState
arriving none = CallState.incoming
arriving (some _) = CallState.waiting

-- The result of initiate_call is not looked at; an exception goes on.
abbrev pub settled : Result (Option Text) → Result (Unit {0})
settled (ok _) = ok tt
settled (raised error) = raised error

abbrev pub present : Text → Text → Option Text → Fresh → Phone → Phone × Result (Unit {0})
present number id none fresh p =
    let state : CallState = arriving (first_voice is_active_voice p.radio.voice_calls) in
    (indicated 1001 (indicated 1002 (on_radio (add_voice state true number id) p)), ok tt)
present number id (some target) fresh p =
    let (started, outcome) = initiate_call fresh target 0 (hangup_call id p).0 in
    if p.has_manager then (started, settled outcome) else (p, ok tt)

-- RadioHAL.incoming_call
unfoldable pub incoming_call : Text → Text → Fresh → Phone → Phone × Result (Unit {0})
unfolding should_forward first_voice add_voice indicate initiate_call hangup_call
incoming_call number id fresh p = present number id (forward_number p.radio.forwarding) fresh p

-- `voice_calls[-1].index`
unfoldable pub last_index : List VoiceCall → Option ℕ
last_index [] = none
last_index (vc ∷ []) = some vc.index
last_index (vc ∷ wc ∷ rest) = last_index (wc ∷ rest)

-- The call of an INVITE.
abbrev pub invited_call : Message → Phone → VolteCall
invited_call m p = record {
  sip_call_id = m.call_id;
  radio_call_index = 0;
  state = VolteCallState.ringing_in;
  direction = Direction.mobile_terminated;
  remote_number = extract_number_from_uri m.from_header;
  remote_uri = m.from_header;
  local_sdp =
      build_sdp_offer (local_ip_of p.config) p.rtp_port_next p.config.codec_priority
        (codes "sendrecv");
  remote_sdp = m.body;
  rtp_port = p.rtp_port_next;
  codec = [];
  media = none;
  invite_stored = true;
  transfer_pending = false;
  transfer_target = [];
}

-- `call.radio_call_index = ...`, on a call that may have left the table.
abbrev pub set_index : ℕ → Option VolteCall → Phone → Phone
set_index index none p = p
set_index index (some call) p =
    put_call call.sip_call_id (record call { radio_call_index = index }) p

abbrev pub numbered : Text → Option ℕ → Phone → Phone × Result (Unit {0})
numbered id none p = (p, raised index_error)
numbered id (some index) p = (set_index index (call_for id p) p, ok tt)

abbrev pub announced : Text → Phone × Result (Unit {0}) → Phone × Result (Unit {0})
announced id (p, raised error) = (p, raised error)
announced id (p, ok _) = numbered id (last_index p.radio.voice_calls) p

-- `if self._radio_hal:` for a new call.
abbrev pub rings_radio : Message → Fresh → Phone → Phone × Result (Unit {0})
rings_radio m fresh p =
    let rung =
      announced m.call_id
        (incoming_call (extract_number_from_uri m.from_header) m.call_id fresh p) in
    if p.has_radio then rung else (p, ok tt)

-- _handle_incoming_invite
unfoldable pub handle_incoming_invite : Message → Fresh → Phone → Phone × Result (Unit {0})
unfolding reply put_call incoming_call last_index
handle_incoming_invite m fresh p =
    let ringing = reply 180 m.call_id [] p in
    let taken : Phone = record ringing { rtp_port_next = ringing.rtp_port_next + 2 } in
    rings_radio m fresh (put_call m.call_id (invited_call m p) taken)

-- The voice calls without the first of a Call-ID.
unfoldable pub without_sip : Text → List VoiceCall → List VoiceCall
without_sip id [] = []
without_sip id (vc ∷ rest) =
    let later = without_sip id rest in if text_key.same vc.sip_call_id id then rest else vc ∷ later

abbrev pub forgotten : Text → Option VolteCall → Phone → Phone
forgotten id none p = p
forgotten id (some call) p =
    to_radio (λ r. indicate 1001 (record r { voice_calls = without_sip id r.voice_calls })) p

-- _handle_incoming_cancel
unfoldable pub handle_incoming_cancel : Message → Phone → Phone
unfolding drop_call reply without_sip indicate
handle_incoming_cancel m p =
    forgotten m.call_id (call_for m.call_id p) (reply 200 m.call_id [] (drop_call m.call_id p))

-- _handle_incoming_bye: as for CANCEL, and then the count of active calls.
unfoldable pub handle_incoming_bye : Message → Phone → Phone
unfolding drop_call reply without_sip indicate recount
handle_incoming_bye m p =
    recount
      (forgotten m.call_id (call_for m.call_id p) (reply 200 m.call_id [] (drop_call m.call_id p)))

-- _handle_reinvite
abbrev pub redirected : Text → VolteCall → Phone → Phone
redirected id call p =
    let on_hold =
      to_radio (update_call_state call.radio_call_index CallState.holding)
        (put_call id (hold_media (record call { state = VolteCallState.held })) p) in
    let back =
      to_radio (update_call_state call.radio_call_index CallState.active)
        (put_call id (resume_media (record call { state = VolteCallState.active })) p) in
    if contains (codes "a=sendonly") call.remote_sdp
      || contains (codes "a=inactive") call.remote_sdp
    then on_hold
    else if contains (codes "a=sendrecv") call.remote_sdp
    then back
    else put_call id call p

unfoldable pub handle_reinvite : Message → VolteCall → Phone → Phone
unfolding put_call update_call_state reply hold_media resume_media
handle_reinvite m call p =
    reply 200 m.call_id call.local_sdp
      (redirected m.call_id (record call { remote_sdp = m.body }) p)
