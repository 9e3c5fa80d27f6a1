-- ===== src/Volte/Reach.antt =====
-- Runs of the phone: the requests of Android and of the management API, and the SIP messages, in any
-- order (hal/radio_hal.py with ims/volte.py). Starting a call is two steps, with others between.
use virtual_phone.Prelude.{
  ℕ, ◌≡◌, ◌≢◌, refl, Bool, false, ◌||◌, Option, none, List, [], ◌∷◌, arith, Option-cases, inl, inr,
}
use virtual_phone.Sms.Gsm7.{Text}
use virtual_phone.Texts.{is_empty}
use virtual_phone.Forwarding.{Rules}
use virtual_phone.Volte.State.{Phone, Config, VolteCall, Reply, call_for, is_active}
use virtual_phone.Volte.Hold.{hold_call, resume_call, swap_calls, conference_calls}
use virtual_phone.Volte.Transfer.{transfer_call, attended_transfer}
use virtual_phone.Volte.Outgoing.{begin_call, finish_call, answer_call, hangup_call}
use virtual_phone.Volte.Voice.{begin_dial, finish_dial, answer, hangup}
use virtual_phone.Volte.Multi.{
  switch_waiting_or_holding_and_active, separate_connection, explicit_call_transfer, hangup_all,
  conference, power_off,
}
use virtual_phone.Volte.Incoming.{Message, Fresh}
use virtual_phone.Volte.Signals.{handle_incoming_sip}
use virtual_phone.Volte.Service.{
  start, stop, set_radio_hal, set_call_manager, hangup_up, is_ringing_out, set_call_forward,
  forward_set, reason_from,
}
use virtual_phone.Volte.Invariant.{WellFormed, same_tables, either}
use virtual_phone.Volte.CallsKept.{
  hangup_call-WellFormed, begin_call-WellFormed, finish_call-WellFormed, answer_call-WellFormed,
}
use virtual_phone.Volte.HoldsKept.{
  hold_call-WellFormed, resume_call-WellFormed, conference_calls-WellFormed,
  attended_transfer-WellFormed, swap_calls-WellFormed, transfer_call-WellFormed,
}
use virtual_phone.Volte.VoicesKept.{
  begin_dial-WellFormed, finish_dial-WellFormed, answer-WellFormed, hangup-WellFormed,
}
use virtual_phone.Volte.MultiKept.{
  switch-WellFormed, separate_connection-WellFormed, explicit_call_transfer-WellFormed,
  hangup_all-WellFormed, conference-WellFormed, power_off-WellFormed,
}
use virtual_phone.Volte.DispatchKept.{handle_incoming_sip-WellFormed}

-- The phone after the constructors have run.
abbrev pub new_phone : Config → ℕ → Option Rules → Phone
new_phone config rtp_port_base forwarding = record {
  config = config;
  has_client = false;
  has_radio = false;
  has_manager = false;
  radio = record {
    voice_calls = [];
    next_call_index = 1;
    forwarding = forwarding;
    indications = [];
  };
  calls = [];
  rtp_port_next = rtp_port_base;
  started = false;
  active_calls = 0;
  total_calls = 0;
  last_codec = none;
  sent = [];
}

-- One operation. A Call-ID that is generated is not in the table, nor that of the message that is
-- being handled.
pub data Step : Phone → Phone → Type 0 where
  starts : (p : Phone) → Step p (start p)
  stops : (p : Phone) → Step p (stop p)
  begins : (p : Phone) (id number : Text) → call_for id p ≡ none → Step p (begin_dial id number p).0
  finishes :
      (p : Phone) (result : Reply) (media : Bool) (index : ℕ) (waiting : Option VolteCall)
      → Step p (finish_dial result media index waiting p).0
  answers : (p : Phone) (media : Bool) → Step p (answer media p).0
  hangs_up : (p : Phone) (index : ℕ) → Step p (hangup index p).0
  hangs_up_all : (p : Phone) → Step p (hangup_all p)
  switches :
      (p : Phone) (first second : Reply) (media : Bool)
      → Step p (switch_waiting_or_holding_and_active first second media p)
  merges : (p : Phone) → Step p (conference p).0
  powers_off : (p : Phone) → Step p (power_off p)
  given_radio : (p : Phone) → Step p (set_radio_hal p)
  given_manager : (p : Phone) → Step p (set_call_manager p)
  separates :
      (p : Phone) (result : Reply) (index : ℕ) → Step p (separate_connection result index p).0
  connects : (p : Phone) (result : Reply) → Step p (explicit_call_transfer result p).0
  holds : (p : Phone) (result : Reply) (id : Text) → Step p (hold_call result id p).0
  resumes : (p : Phone) (result : Reply) (id : Text) → Step p (resume_call result id p).0
  begins_sip :
      (p : Phone) (id number : Text) (index : ℕ)
      → call_for id p ≡ none
      → Step p (begin_call id number index p).0
  finishes_sip :
      (p : Phone) (result : Reply) (media : Bool) (waiting : VolteCall)
      → Step p (finish_call result media waiting p).0
  answers_sip : (p : Phone) (media : Bool) (id : Text) → Step p (answer_call media id p).0
  hangs_up_sip : (p : Phone) (id : Text) → Step p (hangup_call id p).0
  swaps : (p : Phone) (first second : Reply) → Step p (swap_calls first second p).0
  merges_sip : (p : Phone) → Step p (conference_calls p).0
  refers :
      (p : Phone) (result : Reply) (id target : Text) → Step p (transfer_call result id target p).0
  transfers :
      (p : Phone) (result : Reply) (id_a id_b : Text)
      → Step p (attended_transfer result id_a id_b p).0
  forwards :
      (p : Phone) (action reason : ℕ) (number : Text) (seconds : ℕ)
      → Step p (set_call_forward action reason number seconds p).0
  receives :
      (p : Phone) (pending : Bool) (m : Message) (fresh : Fresh)
      → call_for fresh.id p ≡ none
      → fresh.id ≢ m.call_id
      → Step p (handle_incoming_sip pending m fresh p).0

pub data Reach (s : Phone) : Phone → Type 0 where
  here : Reach s s
  next : {p q : Phone} → Reach s p → Step p q → Reach s q

hangup_up-WellFormed :
    (calls : List (Text × VolteCall)) (p : Phone) → WellFormed p → WellFormed (hangup_up calls p)
unfolding hangup_up
hangup_up-WellFormed [] p h = h
hangup_up-WellFormed ((id, call) ∷ rest) p h = hangup_up-WellFormed rest _ (
    either (is_active call.state || is_ringing_out call.state) _ p
      (hangup_call-WellFormed call.sip_call_id p h) h)

start-WellFormed : (p : Phone) → WellFormed p → WellFormed (start p)
unfolding start
start-WellFormed p h =
    either (is_empty p.config.pcscf_address) p _ h (same_tables p _ refl refl h.ordered h)

stop-WellFormed : (p : Phone) → WellFormed p → WellFormed (stop p)
unfolding stop
stop-WellFormed p h =
    let ended = hangup_up-WellFormed p.calls p h in
    same_tables (hangup_up p.calls p) _ refl refl ended.ordered ended

forward-WellFormed :
    (action reason : ℕ) (number : Text) (seconds : ℕ) (p : Phone)
    → WellFormed p
    → WellFormed (set_call_forward action reason number seconds p).0
unfolding set_call_forward
forward-WellFormed action reason number seconds p h =
    elim (Option-cases
      (forward_set action (reason_from reason) number seconds p.radio.forwarding)) [
        | inl refused ↦ rw refused h
        | inr (rules, given) ↦ rw given (same_tables p _ refl refl h.ordered h)
      ]

Step-WellFormed : {p q : Phone} → Step p q → WellFormed p → WellFormed q
Step-WellFormed (Step.starts p) h = start-WellFormed p h
Step-WellFormed (Step.stops p) h = stop-WellFormed p h
Step-WellFormed (Step.begins p id number fresh) h = begin_dial-WellFormed id number p fresh h
Step-WellFormed (Step.finishes p result media index waiting) h =
    finish_dial-WellFormed result media index waiting p h
Step-WellFormed (Step.answers p media) h = answer-WellFormed media p h
Step-WellFormed (Step.hangs_up p index) h = hangup-WellFormed index p h
Step-WellFormed (Step.hangs_up_all p) h = hangup_all-WellFormed p h
Step-WellFormed (Step.switches p first second media) h = switch-WellFormed first second media p h
Step-WellFormed (Step.merges p) h = conference-WellFormed p h
Step-WellFormed (Step.powers_off p) h = power_off-WellFormed p h
Step-WellFormed (Step.given_radio p) h = same_tables p _ refl refl h.ordered h
Step-WellFormed (Step.given_manager p) h = same_tables p _ refl refl h.ordered h
Step-WellFormed (Step.begins_sip p id number index fresh) h =
    begin_call-WellFormed id number index p fresh h
Step-WellFormed (Step.finishes_sip p result media waiting) h =
    finish_call-WellFormed result media waiting p h
Step-WellFormed (Step.answers_sip p media id) h = answer_call-WellFormed media id p h
Step-WellFormed (Step.hangs_up_sip p id) h = hangup_call-WellFormed id p h
Step-WellFormed (Step.swaps p first second) h = swap_calls-WellFormed first second p h
Step-WellFormed (Step.merges_sip p) h = conference_calls-WellFormed p h
Step-WellFormed (Step.refers p result id target) h = transfer_call-WellFormed result id target p h
Step-WellFormed (Step.separates p result index) h = separate_connection-WellFormed result index p h
Step-WellFormed (Step.connects p result) h = explicit_call_transfer-WellFormed result p h
Step-WellFormed (Step.holds p result id) h = hold_call-WellFormed result id p h
Step-WellFormed (Step.resumes p result id) h = resume_call-WellFormed result id p h
Step-WellFormed (Step.transfers p result id_a id_b) h =
    attended_transfer-WellFormed result id_a id_b p h
Step-WellFormed (Step.forwards p action reason number seconds) h =
    forward-WellFormed action reason number seconds p h
Step-WellFormed (Step.receives p pending m fresh missing differ) h =
    handle_incoming_sip-WellFormed pending m fresh p missing differ h

-- In every phone that a new one reaches by any run of the voice requests of Android and of the
-- management API, of SIP messages, of starts and stops and power off, whether or not the call manager
-- and the radio were given each other on the way, each call stands under its own Call-ID, the RTP
-- ports of any two calls are at least two apart and below the next one, and the indexes of the voice
-- calls grow and are below the next one; if no generated Call-ID is in use.
pub Reach-WellFormed :
    (config : Config) (rtp_port_base : ℕ) (forwarding : Option Rules) {p : Phone}
    → Reach (new_phone config rtp_port_base forwarding) p
    → WellFormed p
Reach-WellFormed config base forwarding Reach.here = record {
  ports = omega arith;
  keyed = tt;
  ordered = omega arith;
}
Reach-WellFormed config base forwarding (Reach.next before step) =
    Step-WellFormed step (Reach-WellFormed config base forwarding before)
