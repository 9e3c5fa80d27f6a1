-- ===== src/Volte/VoicesKept.antt =====
-- The radio's operations (hal/radio_hal.py) on a well-formed phone.
use virtual_phone.Prelude.{
  ℕ, ◌≡◌, refl, Bool, true, false, ◌&&◌, not, Option, none, some, List, [], Result, ok, raised,
}
use virtual_phone.Sms.Gsm7.{Text}
use virtual_phone.Texts.{is_empty}
use virtual_phone.Volte.State.{
  Phone, VolteCall, VoiceCall, CallState, Reply, call_for, indicate, on_radio, without_voice,
}
use virtual_phone.Volte.Outgoing.{finish_call}
use virtual_phone.Volte.Voice.{
  first_voice, voice_at, put_voice, with_voices, indicated, add_voice, begin_dial, finish_dial,
  dialed, dial, name_voice, answer, answer_first, hangup, hangup_sip, hangup_voice, is_incoming,
  removed_voice,
}
use virtual_phone.Volte.Indexes.{
  Indexes, AllIndexes, without_voice-Indexes, put_voice-Indexes, name_voice-Indexes, append-Indexes,
}
use virtual_phone.Volte.Invariant.{WellFormed, either, either_pair}
use virtual_phone.Volte.CallsKept.{
  begin_call-WellFormed, finish_call-WellFormed, answer_call-WellFormed, hangup_call-WellFormed,
}

-- Another list of voice calls with ordered indexes, and any indications.
pub voices-WellFormed :
    (voice_calls : List VoiceCall) (p : Phone)
    → Indexes 0 p.radio.next_call_index voice_calls
    → WellFormed p
    → WellFormed (with_voices voice_calls p)
voices-WellFormed voice_calls p new h = record { ports = h.ports; keyed = h.keyed; ordered = new }

pub indicated-WellFormed : (id : ℕ) (p : Phone) → WellFormed p → WellFormed (indicated id p)
unfolding indicate
indicated-WellFormed id p h = record { ports = h.ports; keyed = h.keyed; ordered = h.ordered }

pub add_voice-WellFormed :
    (state : CallState) (is_mt : Bool) (number id : Text) (p : Phone)
    → WellFormed p
    → WellFormed (on_radio (add_voice state is_mt number id) p)
unfolding add_voice
add_voice-WellFormed state is_mt number id p h = record {
  ports = h.ports;
  keyed = h.keyed;
  ordered = append-Indexes _ 0 p.radio.next_call_index p.radio.voice_calls refl h.ordered;
}

pub put_voice-WellFormed :
    (vc : VoiceCall) (p : Phone)
    → WellFormed p
    → WellFormed (with_voices (put_voice vc p.radio.voice_calls) p)
put_voice-WellFormed vc p h =
    voices-WellFormed (put_voice vc p.radio.voice_calls) p
      (put_voice-Indexes vc 0 p.radio.next_call_index p.radio.voice_calls h.ordered) h

-- dial's first half, for a Call-ID that the table does not have.
pub begin_dial-WellFormed :
    (id number : Text) (p : Phone)
    → call_for id p ≡ none
    → WellFormed p
    → WellFormed (begin_dial id number p).0
unfolding begin_dial
begin_dial-WellFormed id number p fresh h =
    let added = add_voice-WellFormed CallState.dialing false number [] p h in
    let rung =
      indicated-WellFormed 1001 (on_radio (add_voice CallState.dialing false number []) p) added in
    let q : Phone = indicated 1001 (on_radio (add_voice CallState.dialing false number []) p) in
    either_pair q.has_manager _ (q, none)
      (begin_call-WellFormed id number p.radio.next_call_index q
        (unfold indicate add_voice in fresh) rung)
      rung

pub removed_voice-WellFormed :
    (done : Bool) (voice_calls : Option (List VoiceCall)) (p : Phone)
    → AllIndexes 0 p.radio.next_call_index voice_calls
    → WellFormed p
    → WellFormed (removed_voice done voice_calls p).0
removed_voice-WellFormed done none p new h = h
removed_voice-WellFormed done (some voice_calls) p new h =
    indicated-WellFormed 1001 (with_voices voice_calls p) (voices-WellFormed voice_calls p new h)

dialed-WellFormed :
    (index : ℕ) (r : Phone × Result (Option Text)) → WellFormed r.0 → WellFormed (dialed index r).0
dialed-WellFormed index (p, ok (some id)) h =
    voices-WellFormed (name_voice index id p.radio.voice_calls) p
      (name_voice-Indexes index id 0 p.radio.next_call_index p.radio.voice_calls h.ordered) h
dialed-WellFormed index (p, ok none) h =
    removed_voice-WellFormed false (without_voice index p.radio.voice_calls) p
      (without_voice-Indexes index 0 p.radio.next_call_index p.radio.voice_calls h.ordered) h
dialed-WellFormed index (p, raised error) h = h

pub finish_dial-WellFormed :
    (result : Reply) (starts : Bool) (index : ℕ) (waiting : Option VolteCall) (p : Phone)
    → WellFormed p
    → WellFormed (finish_dial result starts index waiting p).0
unfolding finish_dial
finish_dial-WellFormed result starts index none p h =
    either_pair p.has_manager _ (p, ok true) (dialed-WellFormed index (p, ok none) h) h
finish_dial-WellFormed result starts index (some waiting) p h =
    dialed-WellFormed index (finish_call result starts waiting p)
      (finish_call-WellFormed result starts waiting p h)

pub dial-WellFormed :
    (id : Text) (result : Reply) (starts : Bool) (number : Text) (p : Phone)
    → call_for id p ≡ none
    → WellFormed p
    → WellFormed (dial id result starts number p).0
unfolding dial
dial-WellFormed id result starts number p fresh h =
    let begun = begin_dial id number p in
    finish_dial-WellFormed result starts begun.1.0 begun.1.1 begun.0
      (begin_dial-WellFormed id number p fresh h)

answer_first-WellFormed :
    (starts : Bool) (vc : Option VoiceCall) (p : Phone)
    → WellFormed p
    → WellFormed (answer_first starts vc p).0
answer_first-WellFormed starts none p h = h
answer_first-WellFormed starts (some vc) p h =
    let up =
      indicated-WellFormed 1001 _
        (put_voice-WellFormed (record vc { state = CallState.active }) p h) in
    either p.has_manager _ _ (answer_call-WellFormed starts vc.sip_call_id _ up) up

pub answer-WellFormed : (starts : Bool) (p : Phone) → WellFormed p → WellFormed (answer starts p).0
unfolding answer
answer-WellFormed starts p h =
    answer_first-WellFormed starts (first_voice is_incoming p.radio.voice_calls) p h

pub hangup_sip-WellFormed : (id : Text) (p : Phone) → WellFormed p → WellFormed (hangup_sip id p)
hangup_sip-WellFormed id p h =
    either (p.has_manager && not (is_empty id)) _ p (hangup_call-WellFormed id p h) h

hangup_voice-WellFormed :
    (vc : Option VoiceCall) (p : Phone) → WellFormed p → WellFormed (hangup_voice vc p).0
hangup_voice-WellFormed none p h = h
hangup_voice-WellFormed (some vc) p h =
    let ended : Phone = hangup_sip vc.sip_call_id p in
    let ended-kept : WellFormed ended = hangup_sip-WellFormed vc.sip_call_id p h in
    removed_voice-WellFormed true (without_voice vc.index ended.radio.voice_calls) ended
      (without_voice-Indexes vc.index 0 ended.radio.next_call_index ended.radio.voice_calls
        ended-kept.ordered)
      ended-kept

pub hangup-WellFormed : (index : ℕ) (p : Phone) → WellFormed p → WellFormed (hangup index p).0
unfolding hangup
hangup-WellFormed index p h = hangup_voice-WellFormed (voice_at index p.radio.voice_calls) p h
