-- ===== src/Volte/Invariant.antt =====
-- The well-formed phone, and the operations of the call manager on it (ims/volte.py).
use virtual_phone.Prelude.{ℕ, ◌≡◌, refl, Bool, true, false, some, if◌then◌else◌}
use virtual_phone.Sms.Gsm7.{Text}
use virtual_phone.Volte.State.{
  Phone, Radio, VolteCall, CallState, call_for, put_call, drop_call, send, reply, update_call_state,
  to_radio,
}
use virtual_phone.Volte.Tables.{Ports, Keyed, store-Ports, remove-Ports, store-Keyed, remove-Keyed}
use virtual_phone.Volte.Indexes.{Ordered, update_call_state-Ordered}

-- Each call under its own Call-ID; ports that grow by two at least along the table, all below the
-- next one; voice calls with indexes that grow, all below the next one.
pub record WellFormed (p : Phone) : Type 0 where
  pub ports : Ports 0 p.rtp_port_next p.calls
  pub keyed : Keyed p.calls
  pub ordered : Ordered p.radio

pub put_call-WellFormed :
    (id : Text) (found call : VolteCall) (p : Phone)
    → call_for id p ≡ some found
    → call.rtp_port ≡ found.rtp_port
    → call.sip_call_id ≡ id
    → WellFormed p
    → WellFormed (put_call id call p)
unfolding put_call
put_call-WellFormed id found call p there port name h = record {
  ports = store-Ports id call found 0 p.rtp_port_next p.calls there port h.ports;
  keyed = store-Keyed id call p.calls name h.keyed;
  ordered = h.ordered;
}

pub drop_call-WellFormed : (id : Text) (p : Phone) → WellFormed p → WellFormed (drop_call id p)
unfolding drop_call
drop_call-WellFormed id p h = record {
  ports = remove-Ports id 0 p.rtp_port_next p.calls h.ports;
  keyed = remove-Keyed id p.calls h.keyed;
  ordered = h.ordered;
}

-- Changes of what the invariant does not speak about.
pub same_tables :
    (p q : Phone)
    → q.calls ≡ p.calls
    → q.rtp_port_next ≡ p.rtp_port_next
    → Ordered q.radio
    → WellFormed p
    → WellFormed q
same_tables p q calls next ordered h = record {
  ports = rw (calls, next) h.ports;
  keyed = rw calls h.keyed;
  ordered = ordered;
}

-- A radio that the call manager changes if it has it.
pub either_radio : (b : Bool) (r s : Radio) → Ordered r → Ordered s → Ordered (if b then r else s)
either_radio true r s hr hs = hr
either_radio false r s hr hs = hs

-- Whichever way a test goes.
pub either :
    (b : Bool) (p q : Phone) → WellFormed p → WellFormed q → WellFormed (if b then p else q)
either true p q hp hq = hp
either false p q hp hq = hq

pub either_pair {ℓ} :
    {A : Type ℓ} (b : Bool) (r s : Phone × A)
    → WellFormed r.0
    → WellFormed s.0
    → WellFormed (if b then r else s).0
either_pair true r s hr hs = hr
either_pair false r s hr hs = hs

pub reply-WellFormed :
    (status : ℕ) (id body : Text) (p : Phone) → WellFormed p → WellFormed (reply status id body p)
unfolding reply send
reply-WellFormed status id body p h =
    either p.has_client _ p (same_tables p _ refl refl h.ordered h) h

-- A call that stays under its Call-ID with its port, and a radio that changes the state of a voice
-- call.
pub changed-WellFormed :
    (id : Text) (found call : VolteCall) (index : ℕ) (state : CallState) (p : Phone)
    → call_for id p ≡ some found
    → call.rtp_port ≡ found.rtp_port
    → call.sip_call_id ≡ id
    → WellFormed p
    → WellFormed (to_radio (update_call_state index state) (put_call id call p))
unfolding put_call
changed-WellFormed id found call index state p there port name h = record {
  ports = (put_call-WellFormed id found call p there port name h).ports;
  keyed = (put_call-WellFormed id found call p there port name h).keyed;
  ordered =
      either_radio p.has_radio _ p.radio (update_call_state-Ordered index state p.radio h.ordered)
        h.ordered;
}
