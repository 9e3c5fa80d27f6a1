-- ===== src/Volte/MultiKept.antt =====
-- The radio's operations on several calls (hal/radio_hal.py) on a well-formed phone.
use virtual_phone.Prelude.{
  ℕ, Bool, true, false, ◌&&◌, not, ok, Option, none, some, List, [], ◌∷◌, map,
}
use virtual_phone.Sms.Gsm7.{Text}
use virtual_phone.Texts.{is_empty}
use virtual_phone.Volte.State.{Phone, VoiceCall, CallState, Reply, without_voice}
use virtual_phone.Volte.Transfer.{transfer_call}
use virtual_phone.Volte.Voice.{
  first_voice, voice_at, put_voice, with_voices, hangup_sip, is_active_voice, is_waiting,
  is_holding,
}
use virtual_phone.Volte.Multi.{
  hold_sip, hold_voice, conference, power_off, hold_active, index_of, switch_to,
  switch_waiting_or_holding_and_active, separate, only_multi, separate_connection, last_voice,
  remove_two, connect_two, explicit_call_transfer, hangup_each, hangup_all,
}
use virtual_phone.Volte.Indexes.{AllIndexes, Indexes-bounds, without_voice-Indexes}
use virtual_phone.Volte.Invariant.{WellFormed, either, either_pair}
use virtual_phone.Volte.CallsKept.{answer_call-WellFormed}
use virtual_phone.Volte.HoldsKept.{
  hold_call-WellFormed, conference_calls-WellFormed, swap_calls-WellFormed,
  transfer_call-WellFormed,
}
use virtual_phone.Volte.VoicesKept.{
  voices-WellFormed, indicated-WellFormed, put_voice-WellFormed, removed_voice-WellFormed,
  hangup_sip-WellFormed,
}

hold_sip-WellFormed :
    (result : Reply) (id : Text) (p : Phone) → WellFormed p → WellFormed (hold_sip result id p)
hold_sip-WellFormed result id p h = either p.has_manager _ p (hold_call-WellFormed result id p h) h

hold_voice-WellFormed :
    (result : Reply) (vc : Option VoiceCall) (p : Phone)
    → WellFormed p
    → WellFormed (hold_voice result vc p)
hold_voice-WellFormed result none p h = h
hold_voice-WellFormed result (some vc) p h =
    either (is_active_voice vc.state) _ p
      (hold_sip-WellFormed result vc.sip_call_id _
        (put_voice-WellFormed (record vc { state = CallState.holding }) p h))
      h

hold_active-WellFormed :
    (result : Reply) (indexes : List ℕ) (p : Phone)
    → WellFormed p
    → WellFormed (hold_active result indexes p)
unfolding hold_active
hold_active-WellFormed result [] p h = h
hold_active-WellFormed result (index ∷ rest) p h =
    hold_active-WellFormed result rest (hold_voice result (voice_at index p.radio.voice_calls) p)
      (hold_voice-WellFormed result (voice_at index p.radio.voice_calls) p h)

switch_to-WellFormed :
    (holds resumes : Reply) (starts : Bool) (waiting : Option VoiceCall) (p : Phone)
    → WellFormed p
    → WellFormed (switch_to holds resumes starts waiting p)
switch_to-WellFormed holds resumes starts none p h =
    either p.has_manager _ p (swap_calls-WellFormed holds resumes p h) h
switch_to-WellFormed holds resumes starts (some waiting) p h =
    let held-kept = hold_active-WellFormed holds (map index_of p.radio.voice_calls) p h in
    let up-kept =
      put_voice-WellFormed (record waiting { state = CallState.active })
        (hold_active holds (map index_of p.radio.voice_calls) p) held-kept in
    let q : Phone =
      with_voices
        (put_voice (record waiting { state = CallState.active })
          (hold_active holds (map index_of p.radio.voice_calls) p).radio.voice_calls)
        (hold_active holds (map index_of p.radio.voice_calls) p) in
    either (q.has_manager && not (is_empty waiting.sip_call_id)) _ q
      (answer_call-WellFormed starts waiting.sip_call_id q up-kept) up-kept

pub switch-WellFormed :
    (holds resumes : Reply) (starts : Bool) (p : Phone)
    → WellFormed p
    → WellFormed (switch_waiting_or_holding_and_active holds resumes starts p)
unfolding switch_waiting_or_holding_and_active
switch-WellFormed holds resumes starts p h =
    indicated-WellFormed 1001 _
      (switch_to-WellFormed holds resumes starts (first_voice is_waiting p.radio.voice_calls) p h)

separate-WellFormed :
    (result : Reply) (vc : Option VoiceCall) (p : Phone)
    → WellFormed p
    → WellFormed (separate result vc p).0
separate-WellFormed result none p h = h
separate-WellFormed result (some vc) p h = indicated-WellFormed 1001 _ (
    hold_sip-WellFormed result vc.sip_call_id _
      (put_voice-WellFormed (record vc { is_mpty = false; state = CallState.holding }) p h))

pub separate_connection-WellFormed :
    (result : Reply) (index : ℕ) (p : Phone)
    → WellFormed p
    → WellFormed (separate_connection result index p).0
unfolding separate_connection
separate_connection-WellFormed result index p h =
    separate-WellFormed result (only_multi (voice_at index p.radio.voice_calls)) p h

remove_two-WellFormed :
    (voice_calls : Option (List VoiceCall)) (held : ℕ) (p : Phone)
    → AllIndexes 0 p.radio.next_call_index voice_calls
    → WellFormed p
    → WellFormed (remove_two voice_calls held p).0
remove_two-WellFormed none held p new h = h
remove_two-WellFormed (some voice_calls) held p new h =
    removed_voice-WellFormed true (without_voice held voice_calls) (with_voices voice_calls p)
      (without_voice-Indexes held 0 p.radio.next_call_index voice_calls new)
      (voices-WellFormed voice_calls p new h)

connect_two-WellFormed :
    (result : Reply) (active held : Option VoiceCall) (p : Phone)
    → WellFormed p
    → WellFormed (connect_two result active held p).0
connect_two-WellFormed result none held p h = h
connect_two-WellFormed result (some active) none p h = h
connect_two-WellFormed result (some active) (some held) p h =
    let asked : Phone = (transfer_call result held.sip_call_id active.number p).0 in
    let asked-kept : WellFormed asked =
      transfer_call-WellFormed result held.sip_call_id active.number p h in
    either_pair p.has_manager _ (p, ok false)
      (either_pair (transfer_call result held.sip_call_id active.number p).1 _ _
        (remove_two-WellFormed (without_voice active.index asked.radio.voice_calls) held.index asked
          (without_voice-Indexes active.index 0 asked.radio.next_call_index asked.radio.voice_calls
            asked-kept.ordered)
          asked-kept)
        asked-kept)
      h

pub explicit_call_transfer-WellFormed :
    (result : Reply) (p : Phone) → WellFormed p → WellFormed (explicit_call_transfer result p).0
unfolding explicit_call_transfer
explicit_call_transfer-WellFormed result p h =
    connect_two-WellFormed result (last_voice is_active_voice p.radio.voice_calls)
      (last_voice is_holding p.radio.voice_calls) p h

hangup_each-WellFormed :
    (vs : List VoiceCall) (p : Phone) → WellFormed p → WellFormed (hangup_each vs p)
unfolding hangup_each
hangup_each-WellFormed [] p h = h
hangup_each-WellFormed (vc ∷ rest) p h =
    hangup_each-WellFormed rest (hangup_sip vc.sip_call_id p)
      (hangup_sip-WellFormed vc.sip_call_id p h)

pub hangup_all-WellFormed : (p : Phone) → WellFormed p → WellFormed (hangup_all p)
unfolding hangup_all
hangup_all-WellFormed p h =
    let ended : Phone = hangup_each p.radio.voice_calls p in
    let ended-kept : WellFormed ended = hangup_each-WellFormed p.radio.voice_calls p h in
    indicated-WellFormed 1001 _ (
      voices-WellFormed [] ended
        (Indexes-bounds 0 ended.radio.next_call_index ended.radio.voice_calls ended-kept.ordered)
        ended-kept)

pub conference-WellFormed : (p : Phone) → WellFormed p → WellFormed (conference p).0
unfolding conference
conference-WellFormed p h =
    either_pair p.has_manager _ (p, false) (conference_calls-WellFormed p h) h

pub power_off-WellFormed : (p : Phone) → WellFormed p → WellFormed (power_off p)
unfolding power_off
power_off-WellFormed p h =
    voices-WellFormed [] p (Indexes-bounds 0 p.radio.next_call_index p.radio.voice_calls h.ordered)
      h
