-- ===== src/Volte/Races.antt =====
-- Orders of events that the code does not expect (hal/radio_hal.py and ims/volte.py): a call that is
-- given up while it is dialed.
use virtual_phone.Prelude.{
  ℕ, suc, ◌≡◌, refl, ap, ◌∙◌, Bool, true, false, none, some, List, [], ◌∷◌, ◌++◌, ◌==◌, ==_refl,
  if◌then◌else◌, arith, find, store, text_key, find-store_same, Result, ok, raised, value_error,
}
use virtual_phone.Sms.Gsm7.{Text}
use virtual_phone.Volte.State.{
  Phone, Radio, VolteCall, VoiceCall, CallState, answered, timeout, call_for, put_call, drop_call,
  recount, send, indicate, set_voice, changed_voice, update_call_state, without_voice,
}
use virtual_phone.Volte.Media.{start_media}
use virtual_phone.Volte.Outgoing.{new_call, begin_call, accepted, connected, failed, finish_call}
use virtual_phone.Volte.Voice.{
  voice_at, add_voice, name_voice, begin_dial, finish_dial, dialed, hangup,
}
use virtual_phone.Volte.Indexes.{Indexes, Indexes-bounds}
use virtual_phone.Volte.Invariant.{WellFormed}

-- An index that is not given out yet belongs to no voice call.
above :
    (lo hi : ℕ) (vc : VoiceCall) (rest : List VoiceCall)
    → Indexes lo hi (vc ∷ rest)
    → (vc.index == hi) ≡ false
above lo hi vc rest h = let bound = Indexes-bounds (suc vc.index) hi rest h.1 in ground arith

voice_at-new : (lo hi : ℕ) (vs : List VoiceCall) → Indexes lo hi vs → voice_at hi vs ≡ none
unfolding voice_at
voice_at-new lo hi [] h = refl
voice_at-new lo hi (vc ∷ rest) h =
    rw (above lo hi vc rest h) (voice_at-new (suc vc.index) hi rest h.1)

without_voice-new :
    (lo hi : ℕ) (vs : List VoiceCall) → Indexes lo hi vs → without_voice hi vs ≡ none
unfolding without_voice
without_voice-new lo hi [] h = refl
without_voice-new lo hi (vc ∷ rest) h =
    rw (above lo hi vc rest h, without_voice-new (suc vc.index) hi rest h.1) refl

set_voice-new :
    (state : CallState) (lo hi : ℕ) (vs : List VoiceCall)
    → Indexes lo hi vs
    → set_voice hi state vs ≡ none
unfolding set_voice
set_voice-new state lo hi [] h = refl
set_voice-new state lo hi (vc ∷ rest) h =
    rw (above lo hi vc rest h, set_voice-new state (suc vc.index) hi rest h.1) refl

name_voice-new :
    (id : Text) (lo hi : ℕ) (vs : List VoiceCall) → Indexes lo hi vs → name_voice hi id vs ≡ vs
unfolding name_voice
name_voice-new id lo hi [] h = refl
name_voice-new id lo hi (vc ∷ rest) h =
    rw (above lo hi vc rest h, name_voice-new id (suc vc.index) hi rest h.1) refl

-- The last voice call, under the index that was given out last.
pub voice_at-last :
    (lo hi : ℕ) (vs : List VoiceCall) (vc : VoiceCall)
    → Indexes lo hi vs
    → vc.index ≡ hi
    → voice_at hi (vs ++ vc ∷ []) ≡ some vc
unfolding voice_at
voice_at-last lo hi [] vc h e = rw (e, ==_refl hi) refl
voice_at-last lo hi (old ∷ rest) vc h e =
    rw (above lo hi old rest h) (voice_at-last (suc old.index) hi rest vc h.1 e)

pub without_voice-last :
    (lo hi : ℕ) (vs : List VoiceCall) (vc : VoiceCall)
    → Indexes lo hi vs
    → vc.index ≡ hi
    → without_voice hi (vs ++ vc ∷ []) ≡ some vs
unfolding without_voice
without_voice-last lo hi [] vc h e = rw (e, ==_refl hi) refl
without_voice-last lo hi (old ∷ rest) vc h e =
    rw (above lo hi old rest h, without_voice-last (suc old.index) hi rest vc h.1 e) refl

-- The phone after the voice call was hung up while its INVITE waited for the answer.
abbrev pub given_up : Text → Text → Phone → Phone × Result Bool
given_up id number p = hangup p.radio.next_call_index (begin_dial id number p).0

-- The voice call that is dialed.
abbrev pub dialed_voice : Text → Phone → VoiceCall
dialed_voice number p = record {
  index = p.radio.next_call_index;
  state = CallState.dialing;
  is_mt = false;
  is_mpty = false;
  number = number;
  sip_call_id = [];
}

given_up-ok :
    (id number : Text) (p : Phone)
    → WellFormed p
    → p.started ≡ true
    → p.has_manager ≡ true
    → ((given_up id number p).1 ≡ ok true)
      × ((given_up id number p).0.radio.voice_calls ≡ p.radio.voice_calls)
      × ((given_up id number p).0.calls
          ≡ store text_key id (new_call id number p.radio.next_call_index p) p.calls)
unfolding hangup begin_dial begin_call add_voice indicate put_call send
given_up-ok id number p h on managed =
    rw
      (
        managed,
        on,
        voice_at-last 0 p.radio.next_call_index p.radio.voice_calls (dialed_voice number p)
            h.ordered refl,
        without_voice-last 0 p.radio.next_call_index p.radio.voice_calls (dialed_voice number p)
            h.ordered refl,
      )
      (refl, refl, refl)

-- The call that the answer to the INVITE finds in the table.
abbrev pub dialed_call : Text → Text → Phone → VolteCall
dialed_call id number p = new_call id number p.radio.next_call_index p

unchanged :
    (state : CallState) (r : Radio) (index : ℕ)
    → Indexes 0 index r.voice_calls
    → update_call_state index state r ≡ r
unfolding update_call_state changed_voice
unchanged state r index h = rw (set_voice-new state 0 index r.voice_calls h) refl

pub connected-call :
    (body : Text) (starts : Bool) (begun : VolteCall) (q : Phone)
    → call_for begun.sip_call_id q ≡ some begun
    → call_for begun.sip_call_id (connected body starts begun q)
      ≡ some (start_media starts (accepted body begun))
unfolding connected put_call recount send
connected-call body starts begun q there = rw there (find-store_same text_key begun.sip_call_id _ _)

both_ways : (b : Bool) (r s : Radio) → s ≡ r → (if b then s else r) ≡ r
both_ways true r s h = h
both_ways false r s h = refl

connected-radio :
    (body : Text) (starts : Bool) (begun : VolteCall) (q : Phone)
    → call_for begun.sip_call_id q ≡ some begun
    → Indexes 0 begun.radio_call_index q.radio.voice_calls
    → (connected body starts begun q).radio ≡ q.radio
unfolding connected put_call recount send
connected-radio body starts begun q there free = rw there (
    both_ways q.has_radio q.radio _
      (unchanged CallState.active q.radio begun.radio_call_index free))

dialed-gone :
    (index : ℕ) (id : Text) (q r : Phone)
    → r.radio ≡ q.radio
    → Indexes 0 index q.radio.voice_calls
    → ((dialed index (r, ok (some id))).0.calls ≡ r.calls)
      × (voice_at index (dialed index (r, ok (some id))).0.radio.voice_calls ≡ none)
dialed-gone index id q r same free =
    let kept : Indexes 0 index r.radio.voice_calls = rw same free in
    (
      refl,
      rw (name_voice-new id 0 index r.radio.voice_calls kept)
          (voice_at-new 0 index r.radio.voice_calls kept),
    )

-- A call that is hung up while its INVITE waits for the answer: hanging up reports success, but
-- nothing reaches the call manager, so a 200 that comes then makes the call active in the table of
-- calls, dial reports success too, and no voice call has its index; and a timeout ends dial with a
-- ValueError. From a well-formed phone whose radio was given the call manager, which is started.
pub finish_dial-hangup :
    (id number body : Text) (starts : Bool) (p : Phone)
    → WellFormed p
    → p.started ≡ true
    → p.has_manager ≡ true
    → ((given_up id number p).1 ≡ ok true)
      × (let r =
            finish_dial
              (answered 200 body)
              starts
              p.radio.next_call_index
              (some (dialed_call id number p))
              (given_up id number p).0 in
          (r.1 ≡ ok true)
          × (call_for id r.0 ≡ some (start_media starts (accepted body (dialed_call id number p))))
          × (voice_at p.radio.next_call_index r.0.radio.voice_calls ≡ none))
      × ((finish_dial timeout starts p.radio.next_call_index
            (some (dialed_call id number p))
            (given_up id number p).0).1
          ≡ raised value_error)
unfolding finish_dial finish_call
finish_dial-hangup id number body starts p h on managed =
    let gave = given_up-ok id number p h on managed in
    let q : Phone = (given_up id number p).0 in
    let free : Indexes 0 p.radio.next_call_index q.radio.voice_calls = rw gave.1 h.ordered in
    let there : call_for id q ≡ some (dialed_call id number p) =
      ap (find text_key id) gave.2
      ∙ find-store_same text_key id (dialed_call id number p) p.calls in
    let gone =
      dialed-gone p.radio.next_call_index id q (connected body starts (dialed_call id number p) q)
        (connected-radio body starts (dialed_call id number p) q there free) free in
    (
      gave.0,
      (
        refl,
        ap (find text_key id) gone.0 ∙ connected-call body starts (dialed_call id number p) q there,
        gone.1,
      ),
      rw there (
          unfold failed drop_call in
          rw (without_voice-new 0 p.radio.next_call_index q.radio.voice_calls free) refl),
    )
