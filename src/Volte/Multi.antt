-- ===== src/Volte/Multi.antt =====
-- The radio's operations on several calls (hal/radio_hal.py).
use virtual_phone.Prelude.{
  ℕ, Bool, true, false, ◌&&◌, not, Option, none, some, List, [], ◌∷◌, map, if◌then◌else◌, Result,
  ok, raised, value_error,
}
use virtual_phone.Sms.Gsm7.{Text}
use virtual_phone.Texts.{is_empty}
use virtual_phone.Volte.Hold.{hold_call, swap_calls, conference_calls}
use virtual_phone.Volte.Outgoing.{answer_call, hangup_call}
use virtual_phone.Volte.Transfer.{transfer_call}
use virtual_phone.Volte.State.{Phone, VoiceCall, CallState, Reply, indicate, without_voice}
use virtual_phone.Volte.Voice.{
  first_voice, voice_at, put_voice, with_voices, indicated, is_active_voice, is_waiting, is_holding,
  hangup_sip, removed_voice,
}

-- `if self._call_manager: await self._call_manager.hold_call(...)`
abbrev pub hold_sip : Reply → Text → Phone → Phone
hold_sip result id p = let held = (hold_call result id p).0 in if p.has_manager then held else p

-- One round of the loop that holds the active calls.
abbrev pub hold_voice : Reply → Option VoiceCall → Phone → Phone
hold_voice result none p = p
hold_voice result (some vc) p =
    let off =
      with_voices (put_voice (record vc { state = CallState.holding }) p.radio.voice_calls) p in
    if is_active_voice vc.state then hold_sip result vc.sip_call_id off else p

-- The loop, over the indexes of the voice calls, which it looks up as they are then.
unfoldable pub hold_active : Reply → List ℕ → Phone → Phone
unfolding voice_at put_voice hold_call
hold_active result [] p = p
hold_active result (index ∷ rest) p =
    hold_active result rest (hold_voice result (voice_at index p.radio.voice_calls) p)

abbrev pub index_of : VoiceCall → ℕ
index_of vc = vc.index

abbrev pub switch_to : Reply → Reply → Bool → Option VoiceCall → Phone → Phone
switch_to holds resumes starts none p =
    let swapped = (swap_calls holds resumes p).0 in if p.has_manager then swapped else p
switch_to holds resumes starts (some waiting) p =
    let held = hold_active holds (map index_of p.radio.voice_calls) p in
    let up =
      with_voices (put_voice (record waiting { state = CallState.active }) held.radio.voice_calls)
        held in
    let answered = (answer_call starts waiting.sip_call_id up).0 in
    if up.has_manager && not (is_empty waiting.sip_call_id) then answered else up

-- switch_waiting_or_holding_and_active
unfoldable pub switch_waiting_or_holding_and_active : Reply → Reply → Bool → Phone → Phone
unfolding first_voice hold_active put_voice answer_call swap_calls indicate
switch_waiting_or_holding_and_active holds resumes starts p =
    indicated 1001 (switch_to holds resumes starts (first_voice is_waiting p.radio.voice_calls) p)

-- conference
unfoldable pub conference : Phone → Phone × Bool
unfolding conference_calls
conference p = if p.has_manager then conference_calls p else (p, false)

abbrev pub separate : Reply → Option VoiceCall → Phone → Phone × Bool
separate result none p = (p, false)
separate result (some vc) p =
    let apart =
      with_voices
        (put_voice (record vc { is_mpty = false; state = CallState.holding }) p.radio.voice_calls)
        p in
    (indicated 1001 (hold_sip result vc.sip_call_id apart), true)

abbrev pub only_multi : Option VoiceCall → Option VoiceCall
only_multi none = none
only_multi (some vc) = if vc.is_mpty then some vc else none

-- separate_connection; no two voice calls share an index, so the first of an index is the only one.
unfoldable pub separate_connection : Reply → ℕ → Phone → Phone × Bool
unfolding voice_at put_voice hold_call indicate
separate_connection result index p =
    separate result (only_multi (voice_at index p.radio.voice_calls)) p

unfoldable pub last_voice : (CallState → Bool) → List VoiceCall → Option VoiceCall
last_voice test [] = none
last_voice test (vc ∷ rest) = elim (last_voice test rest) [
  | some later ↦ some later
  | none ↦ if test vc.state then some vc else none
]

-- `self.voice_calls.remove(active)` and then `remove(held)`.
abbrev pub remove_two : Option (List VoiceCall) → ℕ → Phone → Phone × Result Bool
remove_two none held p = (p, raised value_error)
remove_two (some voice_calls) held p =
    removed_voice true (without_voice held voice_calls) (with_voices voice_calls p)

abbrev pub connect_two : Reply → Option VoiceCall → Option VoiceCall → Phone → Phone × Result Bool
connect_two result (some active) (some held) p =
    let (asked, done) = transfer_call result held.sip_call_id active.number p in
    let apart = remove_two (without_voice active.index asked.radio.voice_calls) held.index asked in
    if p.has_manager then (if done then apart else (asked, ok false)) else (p, ok false)
connect_two result _ _ p = (p, ok false)

-- explicit_call_transfer
unfoldable pub explicit_call_transfer : Reply → Phone → Phone × Result Bool
unfolding last_voice transfer_call without_voice indicate
explicit_call_transfer result p =
    connect_two result (last_voice is_active_voice p.radio.voice_calls)
      (last_voice is_holding p.radio.voice_calls) p

-- The SIP calls of all voice calls are ended, and then all voice calls are gone.
unfoldable pub hangup_each : List VoiceCall → Phone → Phone
unfolding hangup_call
hangup_each [] p = p
hangup_each (vc ∷ rest) p = hangup_each rest (hangup_sip vc.sip_call_id p)

-- hangup_all
unfoldable pub hangup_all : Phone → Phone
unfolding hangup_each indicate
hangup_all p = indicated 1001 (with_voices [] (hangup_each p.radio.voice_calls p))

-- power_off, for the voice calls: they go without an indication, and the call manager is not told.
unfoldable pub power_off : Phone → Phone
power_off p = with_voices [] p
