-- ===== src/Examples/Phones.antt =====
-- A call between two phones, and a radio without a call manager.
use virtual_phone.Prelude.{◌≡◌, refl, true, false, none, some, ok, arith, [], ◌∷◌, find}
use virtual_phone.Sms.Gsm7.{Text}
use virtual_phone.Texts.{codes}
use virtual_phone.Volte.State.{Phone, Method, send, call_for, timeout}
use virtual_phone.Volte.Outgoing.{begin_call}
use virtual_phone.Volte.Incoming.{Message, Fresh}
use virtual_phone.Volte.Reach.{new_phone}
use virtual_phone.Volte.Voice.{voice_at, dial, hangup}
use virtual_phone.Volte.Invariant.{WellFormed}
use virtual_phone.Volte.Races.{dialed_voice}
use virtual_phone.Volte.Apart.{hangup-dial_alone}
use virtual_phone.Volte.Conversation.{TalksTo, offer_of, called, through, finish_call-answer_call}

abbrev phone_at : Text → Phone
phone_at ip =
    record (new_phone
      (record {
        pcscf_address = codes "10.0.0.1";
        local_ip = ip;
        home_domain = codes "ims";
        codec_priority = codes "AMR-WB" ∷ [];
      })
      50000 none) { has_client = true; has_radio = true; has_manager = true; started = true }

abbrev here : Phone
here = phone_at (codes "10.0.0.7")

abbrev there : Phone
there = phone_at (codes "10.0.0.8")

abbrev invite_of : Message
invite_of = record {
  is_response = false;
  status_code = 0;
  method = Method.invite;
  call_id = codes "x";
  from_header = codes "<sip:+100@ims>";
  body = offer_of here 50000;
  refer_to = [];
  event = [];
  subscription_state = [];
}

abbrev unused : Fresh
unused = record { id = codes "y"; result = timeout; starts = true }

finish_call-answer_call_example :
    TalksTo
      (codes "10.0.0.8")
      50000
      (call_for (codes "x") (through false invite_of unused (codes "+200") 1 here there))
    × TalksTo (codes "10.0.0.7") 50000 (call_for (codes "x") (called false invite_of unused there))
unfolding begin_call send find
finish_call-answer_call_example =
    finish_call-answer_call false invite_of unused (codes "+200") 1 here there refl refl refl refl
      refl refl ((refl, (refl, (refl, (refl, (refl, (refl, (refl, (refl, tt)))))))), refl, refl)
      ((refl, (refl, (refl, (refl, (refl, (refl, (refl, (refl, tt)))))))), refl, refl)

-- The radio of the bridge.
abbrev apart : Phone
apart = record here { has_radio = false; has_manager = false }

apart-WellFormed : WellFormed apart
apart-WellFormed = record { ports = omega arith; keyed = tt; ordered = omega arith }

hangup-dial_alone_example :
    let (rung, outcome) = dial (codes "x") timeout true (codes "+100") apart in
    let (back, ended) = hangup 1 rung in
    ((outcome ≡ ok true) × (ended ≡ ok true))
    × (voice_at 1 rung.radio.voice_calls ≡ some (dialed_voice (codes "+100") apart))
    × ((rung.calls ≡ []) × (rung.sent ≡ []))
    × ((back.calls ≡ []) × (back.sent ≡ []))
    × (back.radio.voice_calls ≡ [])
hangup-dial_alone_example =
    hangup-dial_alone (codes "x") (codes "+100") timeout true apart apart-WellFormed refl
