-- ===== src/Volte/Apart.antt =====
-- The radio without a call manager, as hal/ril_bridge.py makes it (hal/radio_hal.py).
use virtual_phone.Prelude.{◌≡◌, refl, Bool, true, false, some, ok}
use virtual_phone.Sms.Gsm7.{Text}
use virtual_phone.Volte.State.{Phone, Reply, indicate}
use virtual_phone.Volte.Voice.{voice_at, add_voice, begin_dial, finish_dial, dial, hangup}
use virtual_phone.Volte.Invariant.{WellFormed}
use virtual_phone.Volte.Races.{dialed_voice, voice_at-last, without_voice-last}

-- Dialing on a well-formed radio that was given no call manager reports success whatever the network
-- would answer, and adds a voice call that is dialing under the next index, but sends no message and
-- leaves the table of calls as it was; hanging that voice call up then succeeds, sends nothing either,
-- and gives back the voice calls from before.
pub hangup-dial_alone :
    (id number : Text) (result : Reply) (starts : Bool) (p : Phone)
    → WellFormed p
    → p.has_manager ≡ false
    → let (rung, outcome) = dial id result starts number p in
      let (back, ended) = hangup p.radio.next_call_index rung in
      ((outcome ≡ ok true) × (ended ≡ ok true))
      × (voice_at p.radio.next_call_index rung.radio.voice_calls ≡ some (dialed_voice number p))
      × ((rung.calls ≡ p.calls) × (rung.sent ≡ p.sent))
      × ((back.calls ≡ p.calls) × (back.sent ≡ p.sent))
      × (back.radio.voice_calls ≡ p.radio.voice_calls)
unfolding dial begin_dial finish_dial hangup add_voice indicate
hangup-dial_alone id number result starts p h alone =
    rw
      (
        alone,
        voice_at-last 0 p.radio.next_call_index p.radio.voice_calls (dialed_voice number p)
            h.ordered refl,
        without_voice-last 0 p.radio.next_call_index p.radio.voice_calls (dialed_voice number p)
            h.ordered refl,
      )
      ((refl, refl), refl, (refl, refl), (refl, refl), refl)
