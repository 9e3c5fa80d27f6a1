-- ===== src/Volte/Conversation.antt =====
-- A call between two phones: the INVITE of one, the 200 of the other (ims/volte.py and ims/media.py).
use virtual_phone.Prelude.{
  ℕ, ◌≡◌, refl, sym, ap, ◌∙◌, subst, Bool, true, false, ◌&&◌, Option, none, some, List, [], ◌∷◌,
  ◌++◌, ◌==◌, leb, if◌then◌else◌, Bool-cases, inl, inr, text_key, find-store_same,
}
use virtual_phone.Sms.Gsm7.{Text}
use virtual_phone.Texts.{codes, is_empty}
use virtual_phone.Sdp.{build_sdp_offer, extract_codec_from_sdp, parse_remote_rtp_address}
use virtual_phone.Sdp.Endpoint.{AreAddress, parse_remote_rtp_address-build_sdp_offer}
use virtual_phone.Volte.State.{
  Phone, VoiceCall, Reply, timeout, VolteCall, VolteCallState, Method, Sent, request, response,
  answered, call_for, put_call, recount, send, reply, is_active, local_ip_of, indicate,
  is_ringing_in,
}
use virtual_phone.Volte.Media.{start_media}
use virtual_phone.Volte.Outgoing.{
  new_call, begin_call, accepted, finish_call, picked_up, answer_call,
}
use virtual_phone.Volte.Incoming.{
  Message, Fresh, forward_number, incoming_call, last_index, invited_call, handle_incoming_invite,
}
use virtual_phone.Volte.Races.{connected-call}
use virtual_phone.Volte.Voice.{add_voice}
use virtual_phone.Volte.Signals.{handle_incoming_sip}

-- The last message sent.
abbrev pub last_sent : List Sent → Option Sent
last_sent [] = none
last_sent (message ∷ _) = some message

-- What a request of a Call-ID comes to, if a message is all that is sent back: a final response of that
-- Call-ID answers it, and with anything else it times out.
abbrev pub reply_of : Text → Option Sent → Reply
reply_of id none = timeout
reply_of id (some (request method other body)) = timeout
reply_of id (some (response status other body)) =
    if text_key.same other id && leb 200 status then answered status body else timeout

-- The method and the body of a message.
abbrev method_of : Option Sent → Method
method_of (some (request method id body)) = method
method_of _ = Method.other

abbrev body_of : Option Sent → Text
body_of none = []
body_of (some (request method id body)) = body
body_of (some (response status id body)) = body

-- An active call with media that run to an address and a port.
abbrev pub TalksTo : Text → ℕ → Option VolteCall → Type 0
TalksTo ip port none = ⊥
TalksTo ip port (some call) =
    (is_active call.state ≡ true)
    × (call.media ≡ some false)
    × (parse_remote_rtp_address call.remote_sdp ≡ (ip, port))

-- The session description of a phone for a port.
abbrev pub offer_of : Phone → ℕ → Text
offer_of p port =
    build_sdp_offer (local_ip_of p.config) port p.config.codec_priority (codes "sendrecv")

offer-full : (p : Phone) (port : ℕ) → is_empty (offer_of p port) ≡ false
unfolding build_sdp_offer
offer-full p port = refl

-- Media start to the phone that an offer is from.
started-offer :
    (q : Phone) (port : ℕ) (call : VolteCall)
    → AreAddress (local_ip_of q.config)
    → is_empty (local_ip_of q.config) ≡ false
    → (port == 0) ≡ false
    → (call.rtp_port == 0) ≡ false
    → call.remote_sdp ≡ offer_of q port
    → is_active call.state ≡ true
    → TalksTo (local_ip_of q.config) port (some (start_media true call))
unfolding start_media
started-offer q port call address full port_set own_set from up =
    let read : parse_remote_rtp_address call.remote_sdp ≡ (local_ip_of q.config, port) =
      ap parse_remote_rtp_address from
      ∙ parse_remote_rtp_address-build_sdp_offer (local_ip_of q.config) port q.config.codec_priority
          (codes "sendrecv") address full in
    let there : is_empty call.remote_sdp ≡ false = ap is_empty from ∙ offer-full q port in
    rw (there, own_set) (rw (ap (λ r. r.1) read, port_set) (up, refl, read))

-- The end of the voice calls after one was added.
last_index-added :
    (vs : List VoiceCall) (vc : VoiceCall) → last_index (vs ++ vc ∷ []) ≡ some vc.index
unfolding last_index
last_index-added [] vc = refl
last_index-added (old ∷ []) vc = refl
last_index-added (old ∷ next ∷ vs) vc = last_index-added (next ∷ vs) vc

-- The call of an INVITE once it is presented.
abbrev pub presented_call : Message → Phone → VolteCall
presented_call m p = record (invited_call m p) {
  radio_call_index = if p.has_radio then p.radio.next_call_index else 0;
}

invited-rings :
    (m : Message) (fresh : Fresh) (p : Phone)
    → forward_number p.radio.forwarding ≡ none
    → p.has_client ≡ true
    → (call_for m.call_id (handle_incoming_invite m fresh p).0 ≡ some (presented_call m p))
      × ((handle_incoming_invite m fresh p).0.has_client ≡ true)
unfolding handle_incoming_invite incoming_call reply send put_call
invited-rings m fresh p direct client = elim (Bool-cases p.has_radio) [
  | inl radio ↦
      rw (client, direct, radio)
        (unfold add_voice indicate in
          rw
            (
              last_index-added p.radio.voice_calls _,
              find-store_same text_key m.call_id (invited_call m p) p.calls,
            )
            (
              find-store_same text_key m.call_id
                  (record (invited_call m p) { radio_call_index = p.radio.next_call_index }) _,
              refl,
            ))
  | inr none_set ↦
      rw (client, none_set) (find-store_same text_key m.call_id (invited_call m p) p.calls, refl)
]

-- Answering a ringing call.
answered-ringing :
    (id : Text) (call : VolteCall) (p : Phone)
    → call_for id p ≡ some call
    → (is_ringing_in call.state && (call.invite_stored && p.has_client)) ≡ true
    → (call_for id (answer_call true id p).0 ≡ some (picked_up true call))
      × (last_sent (answer_call true id p).0.sent ≡ some (response 200 id call.local_sdp))
unfolding answer_call put_call recount send
answered-ringing id call p there ringing =
    rw (there, ringing) (find-store_same text_key id _ p.calls, refl)

-- The phone that calls, before the answer and after it, and the one that is called.
abbrev pub calling : Message → Text → ℕ → Phone → Phone
calling m number index a = (begin_call m.call_id number index a).0

abbrev pub called : Bool → Message → Fresh → Phone → Phone
called pending m fresh b = (answer_call true m.call_id (handle_incoming_sip pending m fresh b).0).0

abbrev pub through : Bool → Message → Fresh → Text → ℕ → Phone → Phone → Phone
through pending m fresh number index a b =
    (finish_call (reply_of m.call_id (last_sent (called pending m fresh b).sent)) true
      (new_call m.call_id number index a) (calling m number index a)).0

-- A call between two phones: the request that one sent last, whose method, Call-ID and body the other
-- gets, is handled by the other, which then answers the call; what it sent last comes back, and
-- answers the INVITE if it is a final response of its Call-ID. Then both calls are active, each has a
-- media session that is not on hold, and the address and the port that each reads in the session
-- description that it got are the other's. The phone that calls is started; the one called has a SIP
-- client, no rule that forwards every call and no call of this Call-ID. Both have addresses of digits
-- and dots and ports that are not 0, and the media sessions start.
pub finish_call-answer_call :
    (pending : Bool) (m : Message) (fresh : Fresh) (number : Text) (index : ℕ) (a b : Phone)
    → a.started ≡ true
    → m.is_response ≡ false
    → last_sent (calling m number index a).sent ≡ some (request m.method m.call_id m.body)
    → call_for m.call_id b ≡ none
    → forward_number b.radio.forwarding ≡ none
    → b.has_client ≡ true
    → AreAddress (local_ip_of a.config)
      × (is_empty (local_ip_of a.config) ≡ false)
      × ((a.rtp_port_next == 0) ≡ false)
    → AreAddress (local_ip_of b.config)
      × (is_empty (local_ip_of b.config) ≡ false)
      × ((b.rtp_port_next == 0) ≡ false)
    → TalksTo
        (local_ip_of b.config)
        b.rtp_port_next
        (call_for m.call_id (through pending m fresh number index a b))
      × TalksTo
          (local_ip_of a.config)
          a.rtp_port_next
          (call_for m.call_id (called pending m fresh b))
unfolding handle_incoming_sip finish_call
finish_call-answer_call pending m fresh number index a b on request_it got unknown direct client
      from to =
    let offered : last_sent (calling m number index a).sent
        ≡ some (request Method.invite m.call_id (offer_of a a.rtp_port_next)) =
      unfold begin_call send in rw on refl in
    let invite : m.method ≡ Method.invite = ap method_of (sym got ∙ offered) in
    let body : m.body ≡ offer_of a a.rtp_port_next = ap body_of (sym got ∙ offered) in
    let arrived : (handle_incoming_sip pending m fresh b).0 ≡ (handle_incoming_invite m fresh b).0 =
      rw (request_it, invite, unknown) refl in
    let rung : Phone = (handle_incoming_sip pending m fresh b).0 in
    let ringing = invited-rings m fresh b direct client in
    let there : call_for m.call_id rung ≡ some (presented_call m b) =
      ap (call_for m.call_id) arrived ∙ ringing.0 in
    let up : rung.has_client ≡ true = ap (λ p. p.has_client) arrived ∙ ringing.1 in
    let taken = answered-ringing m.call_id (presented_call m b) rung there up in
    let begun : VolteCall = new_call m.call_id number index a in
    let waits : call_for m.call_id (calling m number index a) ≡ some begun =
      unfold begin_call send put_call in rw on (find-store_same text_key m.call_id begun a.calls) in
    let answer : Text = offer_of b b.rtp_port_next in
    let replied : reply_of m.call_id (last_sent (called pending m fresh b).sent)
        ≡ answered 200 answer =
      ap (reply_of m.call_id) taken.1 ∙ rw (text_key.same_refl m.call_id) refl in
    let met = connected-call answer true begun (calling m number index a) waits in
    let near =
      started-offer b b.rtp_port_next (accepted answer begun) to.0 to.1 to.2 from.2 refl refl in
    let far =
      started-offer a a.rtp_port_next
        (record (presented_call m b) {
          state = VolteCallState.active;
          codec = extract_codec_from_sdp m.body;
        })
        from.0 from.1 from.2 to.2 body refl in
    (
      subst (TalksTo (local_ip_of b.config) b.rtp_port_next)
          (sym (
            ap (λ r. call_for m.call_id (finish_call r true begun (calling m number index a)).0)
              replied
            ∙ met))
          near,
      subst (TalksTo (local_ip_of a.config) a.rtp_port_next) (sym taken.0) far,
    )
