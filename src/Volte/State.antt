-- ===== src/Volte/State.antt =====
-- The state of the call manager (ims/volte.py) and of the radio's voice calls (hal/radio_hal.py).
use virtual_phone.Prelude.{
  ℕ, suc, Bool, true, false, ◌&&◌, Option, none, some, List, [], ◌∷◌, ◌==◌, if◌then◌else◌, find,
  store, remove, text_key,
}
use virtual_phone.Sms.Gsm7.{Text}
use virtual_phone.Texts.{codes, is_empty}
use virtual_phone.Forwarding.{Rules}

pub data VolteCallState : Type 0 where
  initiating ringing_out ringing_in active held terminating ended : VolteCallState

abbrev pub is_active : VolteCallState → Bool
is_active active = true
is_active _ = false

abbrev pub is_held : VolteCallState → Bool
is_held held = true
is_held _ = false

abbrev pub is_ringing_in : VolteCallState → Bool
is_ringing_in ringing_in = true
is_ringing_in _ = false

pub data Direction : Type 0 where
  mobile_originated mobile_terminated : Direction

abbrev pub is_originated : Direction → Bool
is_originated mobile_originated = true
is_originated mobile_terminated = false

-- `media` is the media session, if one runs: whether it is on hold.
pub record VolteCall : Type 0 where
  pub sip_call_id : Text
  pub radio_call_index : ℕ
  pub state : VolteCallState
  pub direction : Direction
  pub remote_number : Text
  pub remote_uri : Text
  pub local_sdp : Text
  pub remote_sdp : Text
  pub rtp_port : ℕ
  pub codec : Text
  pub media : Option Bool
  pub invite_stored : Bool
  pub transfer_pending : Bool
  pub transfer_target : Text

-- The states of a DriverCall.
pub data CallState : Type 0 where
  active holding dialing alerting incoming waiting : CallState

pub record VoiceCall : Type 0 where
  pub index : ℕ
  pub state : CallState
  pub is_mt : Bool
  pub is_mpty : Bool
  pub number : Text
  pub sip_call_id : Text

-- What RadioHAL keeps for voice calls; `indications` are those sent so far, the last one first.
pub record Radio : Type 0 where
  pub voice_calls : List VoiceCall
  pub next_call_index : ℕ
  pub forwarding : Option Rules
  pub indications : List ℕ

pub record Config : Type 0 where
  pub pcscf_address : Text
  pub local_ip : Text
  pub home_domain : Text
  pub codec_priority : List Text

pub data Method : Type 0 where
  invite ack bye cancel refer notify other : Method

-- A message sent: a request, or a response with its status; then the Call-ID, and the body, which for
-- a REFER is the target in Refer-To instead.
pub data Sent : Type 0 where
  request : Method → Text → Text → Sent
  response : ℕ → Text → Text → Sent

-- The call manager and the radio. `has_radio` says whether the manager was given the radio
-- (`_radio_hal`), `has_manager` whether the radio was given the manager (`_call_manager`).
-- `active_calls`, `total_calls` and `last_codec` are the module's _volte_state; `sent` are the
-- messages sent so far, the last one first.
pub record Phone : Type 0 where
  pub config : Config
  pub has_client : Bool
  pub has_radio : Bool
  pub has_manager : Bool
  pub radio : Radio
  pub calls : List (Text × VolteCall)
  pub rtp_port_next : ℕ
  pub started : Bool
  pub active_calls : ℕ
  pub total_calls : ℕ
  pub last_codec : Option Text
  pub sent : List Sent

-- What a request that was sent comes to: a final response, or a TimeoutError.
pub data Reply : Type 0 where
  timeout : Reply
  answered : ℕ → Text → Reply

abbrev pub call_for : Text → Phone → Option VolteCall
call_for id p = find text_key id p.calls

-- A call in the table is changed in place.
unfoldable pub put_call : Text → VolteCall → Phone → Phone
put_call id call p = record p { calls = store text_key id call p.calls }

unfoldable pub drop_call : Text → Phone → Phone
drop_call id p = record p { calls = remove text_key id p.calls }

unfoldable pub count_active : List (Text × VolteCall) → ℕ
count_active [] = 0
count_active ((id, call) ∷ rest) =
    if is_active call.state then suc (count_active rest) else count_active rest

-- `_volte_state["active_calls"] = len([...])`
unfoldable pub recount : Phone → Phone
unfolding count_active
recount p = record p { active_calls = count_active p.calls }

unfoldable pub send : Sent → Phone → Phone
send message p = record p { sent = message ∷ p.sent }

-- `if self._sip_client: await self._sip_client.transport.send(...)`
unfoldable pub reply : ℕ → Text → Text → Phone → Phone
unfolding send
reply status id body p = if p.has_client then send (response status id body) p else p

-- `if self._sip_client and self._started`
abbrev pub is_up : Phone → Bool
is_up p = p.has_client && p.started

-- _send_indication
unfoldable pub indicate : ℕ → Radio → Radio
indicate id r = record r { indications = id ∷ r.indications }

-- The first call with an index gets a state; nothing if there is none.
unfoldable pub set_voice : ℕ → CallState → List VoiceCall → Option (List VoiceCall)
set_voice index state [] = none
set_voice index state (vc ∷ rest) =
    let later = set_voice index state rest in
    if vc.index == index
    then some (record vc { state = state } ∷ rest)
    else elim later [ none ↦ none | some others ↦ some (vc ∷ others) ]

unfoldable pub changed_voice : Option (List VoiceCall) → Radio → Radio
unfolding indicate
changed_voice none r = r
changed_voice (some voice_calls) r = indicate 1001 (record r { voice_calls = voice_calls })

-- RadioHAL.update_call_state
unfoldable pub update_call_state : ℕ → CallState → Radio → Radio
unfolding set_voice changed_voice
update_call_state index state r = changed_voice (set_voice index state r.voice_calls) r

abbrev pub on_radio : (Radio → Radio) → Phone → Phone
on_radio f p = record p { radio = f p.radio }

-- `if self._radio_hal: ...`
abbrev pub to_radio : (Radio → Radio) → Phone → Phone
to_radio f p = record p { radio = if p.has_radio then f p.radio else p.radio }

-- `voice_calls.remove(call)` by the index, which no two calls share; nothing if it is not there.
unfoldable pub without_voice : ℕ → List VoiceCall → Option (List VoiceCall)
without_voice index [] = none
without_voice index (vc ∷ rest) =
    let later = without_voice index rest in
    if vc.index == index
    then some rest
    else elim later [ none ↦ none | some others ↦ some (vc ∷ others) ]

-- `local_ip or "10.45.0.2"`
abbrev pub local_ip_of : Config → Text
local_ip_of c = if is_empty c.local_ip then codes "10.45.0.2" else c.local_ip
