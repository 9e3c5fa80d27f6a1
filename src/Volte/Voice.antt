-- ===== src/Volte/Voice.antt =====
-- The voice calls of the radio (hal/radio_hal.py): what Android asks for.
use virtual_phone.Prelude.{
  ℕ, ◌+◌, Bool, true, false, ◌&&◌, not, Option, none, some, List, [], ◌∷◌, ◌++◌, ◌==◌,
  if◌then◌else◌, Result, ok, raised, value_error,
}
use virtual_phone.Sms.Gsm7.{Text}
use virtual_phone.Texts.{is_empty}
use virtual_phone.Volte.Outgoing.{begin_call, finish_call, answer_call, hangup_call}
use virtual_phone.Volte.State.{
  Phone, Radio, VoiceCall, VolteCall, CallState, Reply, indicate, without_voice, on_radio,
}

-- The calls with a test on their state.
abbrev pub is_active_voice : CallState → Bool
is_active_voice CallState.active = true
is_active_voice _ = false

abbrev pub is_incoming : CallState → Bool
is_incoming CallState.incoming = true
is_incoming _ = false

abbrev pub is_waiting : CallState → Bool
is_waiting CallState.waiting = true
is_waiting _ = false

abbrev pub is_holding : CallState → Bool
is_holding CallState.holding = true
is_holding _ = false

unfoldable pub first_voice : (CallState → Bool) → List VoiceCall → Option VoiceCall
first_voice test [] = none
first_voice test (vc ∷ rest) =
    let later = first_voice test rest in if test vc.state then some vc else later

unfoldable pub voice_at : ℕ → List VoiceCall → Option VoiceCall
voice_at index [] = none
voice_at index (vc ∷ rest) =
    let later = voice_at index rest in if vc.index == index then some vc else later

-- The voice call that is changed in place, found by its index.
unfoldable pub put_voice : VoiceCall → List VoiceCall → List VoiceCall
put_voice vc [] = []
put_voice vc (old ∷ rest) =
    let later = put_voice vc rest in if old.index == vc.index then vc ∷ rest else old ∷ later

abbrev pub with_voices : List VoiceCall → Phone → Phone
with_voices voice_calls p = record p { radio = record p.radio { voice_calls = voice_calls } }

abbrev pub indicated : ℕ → Phone → Phone
indicated id = on_radio (indicate id)

-- A new voice call at the end, under the next index.
unfoldable pub add_voice : CallState → Bool → Text → Text → Radio → Radio
add_voice state is_mt number sip_call_id r = record r {
  voice_calls =
      r.voice_calls
      ++ (record {
        index = r.next_call_index;
        state = state;
        is_mt = is_mt;
        is_mpty = false;
        number = number;
        sip_call_id = sip_call_id;
      }
          ∷ []);
  next_call_index = r.next_call_index + 1;
}

-- dial up to the `await` in initiate_call: the index of the new voice call, and the call that waits.
unfoldable pub begin_dial : Text → Text → Phone → Phone × (ℕ × Option VolteCall)
unfolding add_voice indicate begin_call
begin_dial id number p =
    let index = p.radio.next_call_index in
    let rung = indicated 1001 (on_radio (add_voice CallState.dialing false number []) p) in
    let asked = begin_call id number index rung in
    let (begun, waiting) = if rung.has_manager then asked else (rung, none) in
    (begun, (index, waiting))

-- `call.sip_call_id = sip_call_id`, on a voice call that may have been removed.
unfoldable pub name_voice : ℕ → Text → List VoiceCall → List VoiceCall
name_voice index id [] = []
name_voice index id (vc ∷ rest) =
    let later = name_voice index id rest in
    if vc.index == index then record vc { sip_call_id = id } ∷ rest else vc ∷ later

-- `self.voice_calls.remove(call)`, the indication and the result: ValueError if the call is not there.
abbrev pub removed_voice : Bool → Option (List VoiceCall) → Phone → Phone × Result Bool
removed_voice done none p = (p, raised value_error)
removed_voice done (some voice_calls) p = (indicated 1001 (with_voices voice_calls p), ok done)

abbrev pub dialed : ℕ → Phone × Result (Option Text) → Phone × Result Bool
dialed index (p, ok (some id)) = (with_voices (name_voice index id p.radio.voice_calls) p, ok true)
dialed index (p, ok none) = removed_voice false (without_voice index p.radio.voice_calls) p
dialed index (p, raised error) = (p, raised error)

-- dial from there on; without a call manager it succeeds, and no SIP call is started.
unfoldable pub finish_dial : Reply → Bool → ℕ → Option VolteCall → Phone → Phone × Result Bool
unfolding finish_call name_voice without_voice indicate
finish_dial result starts index none p =
    if p.has_manager then dialed index (p, ok none) else (p, ok true)
finish_dial result starts index (some waiting) p =
    dialed index (finish_call result starts waiting p)

-- dial with nothing in between.
unfoldable pub dial : Text → Reply → Bool → Text → Phone → Phone × Result Bool
unfolding begin_dial finish_dial
dial id result starts number p =
    let (begun, (index, waiting)) = begin_dial id number p in
    finish_dial result starts index waiting begun

abbrev pub answer_first : Bool → Option VoiceCall → Phone → Phone × Bool
answer_first starts none p = (p, false)
answer_first starts (some vc) p =
    let up =
      indicated 1001
        (with_voices (put_voice (record vc { state = CallState.active }) p.radio.voice_calls) p) in
    let answered = (answer_call starts vc.sip_call_id up).0 in
    (if up.has_manager then answered else up, true)

-- answer
unfoldable pub answer : Bool → Phone → Phone × Bool
unfolding first_voice put_voice indicate answer_call
answer starts p = answer_first starts (first_voice is_incoming p.radio.voice_calls) p

-- `if self._call_manager and call.sip_call_id: await self._call_manager.hangup_call(...)`
abbrev pub hangup_sip : Text → Phone → Phone
hangup_sip id p =
    let ended = (hangup_call id p).0 in if p.has_manager && not (is_empty id) then ended else p

abbrev pub hangup_voice : Option VoiceCall → Phone → Phone × Result Bool
hangup_voice none p = (p, ok false)
hangup_voice (some vc) p =
    let ended = hangup_sip vc.sip_call_id p in
    removed_voice true (without_voice vc.index ended.radio.voice_calls) ended

-- hangup
unfoldable pub hangup : ℕ → Phone → Phone × Result Bool
unfolding voice_at hangup_call without_voice indicate
hangup index p = hangup_voice (voice_at index p.radio.voice_calls) p
