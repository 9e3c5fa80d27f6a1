-- ===== src/Volte/Held.antt =====
-- What holding, resuming and swapping do to the table of calls (ims/volte.py).
use virtual_phone.Prelude.{
  ◌≡◌, refl, sym, ap, ◌∙◌, subst, Bool, true, false, Option, none, some, List, if◌then◌else◌, arith,
  Bool-cases, inl, inr, find, store, text_key, find-store_same, find-store_other, store-found,
  store-store,
}
use virtual_phone.Sms.Gsm7.{Text}
use virtual_phone.Texts.{codes}
use virtual_phone.Volte.State.{
  Phone, VolteCall, VolteCallState, CallState, Reply, call_for, put_call, recount, send, is_active,
  is_held,
}
use virtual_phone.Volte.Media.{hold_media, resume_media, set_hold}
use virtual_phone.Volte.Hold.{reinvite, moved, hold_call, resume_call, first_call, swap_calls}
use virtual_phone.Volte.Tables.{first_call_found, other_key}
use virtual_phone.Volte.Invariant.{WellFormed}

reinvite-calls :
    (result : Reply) (id body : Text) (p : Phone) → (reinvite result id body p).calls ≡ p.calls
unfolding reinvite send
reinvite-calls Reply.timeout id body p = ground arith
reinvite-calls (Reply.answered status text) id body p = ground arith

pub moved-calls :
    (state : VolteCallState) (radio_state : CallState) (direction : Text) (result : Reply)
    (id : Text) (call : VolteCall) (p : Phone)
    → (moved state radio_state direction result id call p).calls
      ≡ store text_key id (record call { state = state }) p.calls
unfolding moved recount put_call
moved-calls state radio_state direction result id call p =
    reinvite-calls result id _ (put_call id (record call { state = state }) p)

-- The call that is held or resumed.
abbrev pub held_call : VolteCall → VolteCall
held_call call = record call { state = VolteCallState.held; media = set_hold true call.media }

abbrev pub resumed_call : VolteCall → VolteCall
resumed_call call = record call { state = VolteCallState.active; media = set_hold false call.media }

pub hold_call-calls :
    (result : Reply) (id : Text) (call : VolteCall) (p : Phone)
    → call_for id p ≡ some call
    → is_active call.state ≡ true
    → ((hold_call result id p).0.calls ≡ store text_key id (held_call call) p.calls)
      × ((hold_call result id p).1 ≡ true)
unfolding hold_call hold_media
hold_call-calls result id call p there up =
    rw (there, up)
      (
        moved-calls VolteCallState.held CallState.holding (codes "sendonly") result id
            (hold_media call) p,
        refl,
      )

pub resume_call-calls :
    (result : Reply) (id : Text) (call : VolteCall) (p : Phone)
    → call_for id p ≡ some call
    → is_held call.state ≡ true
    → ((resume_call result id p).0.calls ≡ store text_key id (resumed_call call) p.calls)
      × ((resume_call result id p).1 ≡ true)
unfolding resume_call resume_media
resume_call-calls result id call p there on =
    rw (there, on)
      (
        moved-calls VolteCallState.active CallState.active (codes "sendrecv") result id
            (resume_media call) p,
        refl,
      )

state-active : (s : VolteCallState) → is_active s ≡ true → s ≡ VolteCallState.active
state-active VolteCallState.active e = refl
state-active VolteCallState.initiating e = absurd (cc)
state-active VolteCallState.ringing_out e = absurd (cc)
state-active VolteCallState.ringing_in e = absurd (cc)
state-active VolteCallState.held e = absurd (cc)
state-active VolteCallState.terminating e = absurd (cc)
state-active VolteCallState.ended e = absurd (cc)

off_again : (media : Option Bool) → set_hold false (set_hold true media) ≡ set_hold false media
off_again none = refl
off_again (some on) = refl

resumed-held :
    (call : VolteCall)
    → is_active call.state ≡ true
    → set_hold false call.media ≡ call.media
    → resumed_call (held_call call) ≡ call
resumed-held call up media =
    ap (λ s. record call { state = s; media = set_hold false (set_hold true call.media) })
      (sym (state-active call.state up))
    ∙ ap (λ m. record call { media = m }) (off_again call.media ∙ media)

-- Holding an active call whose media is not on hold and then resuming it gives back the table of
-- calls, whatever the answers to the two re-INVITEs are, a timeout included; both succeed.
pub resume-hold :
    (first second : Reply) (id : Text) (call : VolteCall) (p : Phone)
    → call_for id p ≡ some call
    → is_active call.state ≡ true
    → set_hold false call.media ≡ call.media
    → ((resume_call second id (hold_call first id p).0).0.calls ≡ p.calls)
      × ((hold_call first id p).1 ≡ true)
      × ((resume_call second id (hold_call first id p).0).1 ≡ true)
resume-hold first second id call p there up media =
    let on = hold_call-calls first id call p there up in
    let found : call_for id (hold_call first id p).0 ≡ some (held_call call) =
      ap (find text_key id) on.0 ∙ find-store_same text_key id (held_call call) p.calls in
    let off = resume_call-calls second id (held_call call) (hold_call first id p).0 found refl in
    let back : store text_key id (resumed_call (held_call call)) (hold_call first id p).0.calls
        ≡ p.calls =
      ap (λ d. store text_key id (resumed_call (held_call call)) d) on.0
      ∙ store-store text_key id (held_call call) (resumed_call (held_call call)) p.calls
      ∙ ap (λ c. store text_key id c p.calls) (resumed-held call up media)
      ∙ store-found text_key id call p.calls there in
    (off.0 ∙ back, on.1, off.1)

not_both : (s : VolteCallState) → is_active s ≡ true → is_held s ≡ true → ⊥
not_both s up on =
    let clash : is_held VolteCallState.active ≡ true = ap is_held (sym (state-active s up)) ∙ on in
    absurd (cc)

-- An active and a held call have two Call-IDs.
differ :
    (a b : VolteCall) (p : Phone)
    → call_for a.sip_call_id p ≡ some a
    → call_for b.sip_call_id p ≡ some b
    → is_active a.state ≡ true
    → is_held b.state ≡ true
    → text_key.same b.sip_call_id a.sip_call_id ≡ false
differ a b p here there up on = elim (Bool-cases (text_key.same b.sip_call_id a.sip_call_id)) [
  | inr e ↦ e
  | inl e ↦
      let sames : some a ≡ some b =
        sym here
        ∙ ap (λ k. call_for k p) (sym (text_key.same_sound b.sip_call_id a.sip_call_id e))
        ∙ there in
      let one : a ≡ b = cc (sames) in
      absurd (not_both b.state (subst (λ c. is_active c.state ≡ true) one up) on)
]

-- In a well-formed phone with an active and a held call, the first ones of the table, swapping
-- succeeds: the active call is then held with its media session, if any, on hold, the held one active
-- with its session not on hold, and under any other Call-ID stands what stood there before; whatever
-- the answers to the re-INVITEs are, a timeout included.
pub swap_calls_lem :
    (first second : Reply) (a b : VolteCall) (p : Phone) (id : Text)
    → WellFormed p
    → first_call is_active p.calls ≡ some a
    → first_call is_held p.calls ≡ some b
    → ((swap_calls first second p).1 ≡ true)
      × (call_for id (swap_calls first second p).0 ≡ (
          if text_key.same id a.sip_call_id
          then some (held_call a)
          else if text_key.same id b.sip_call_id
          then some (resumed_call b)
          else call_for id p))
unfolding swap_calls
swap_calls_lem first second a b p id h one two =
    let here = first_call_found is_active p.calls a h.keyed one in
    let there = first_call_found is_held p.calls b h.keyed two in
    let other : text_key.same b.sip_call_id a.sip_call_id ≡ false =
      differ a b p here.0 there.0 here.1 there.1 in
    let q : Phone = (hold_call first a.sip_call_id p).0 in
    let on : q.calls ≡ store text_key a.sip_call_id (held_call a) p.calls =
      (hold_call-calls first a.sip_call_id a p here.0 here.1).0 in
    let found : call_for b.sip_call_id q ≡ some b =
      ap (find text_key b.sip_call_id) on
      ∙ find-store_other text_key b.sip_call_id a.sip_call_id (held_call a) p.calls other
      ∙ there.0 in
    let r : Phone = (resume_call second b.sip_call_id q).0 in
    let off : r.calls ≡ store text_key b.sip_call_id (resumed_call b) q.calls =
      (resume_call-calls second b.sip_call_id b q found there.1).0 in
    rw (one, two)
      (
        refl,
        ap (find text_key id) (off ∙ ap (store text_key b.sip_call_id (resumed_call b)) on)
            ∙ two_stored a.sip_call_id b.sip_call_id id (held_call a) (resumed_call b) p.calls
                other,
      )
  where
    two_stored :
        (j k i : Text) (v w : VolteCall) (d : List (Text × VolteCall))
        → text_key.same k j ≡ false
        → find text_key i (store text_key k w (store text_key j v d)) ≡ (
            if text_key.same i j
            then some v
            else if text_key.same i k
            then some w
            else find text_key i d)
    two_stored j k i v w d apart = elim (Bool-cases (text_key.same i j)) [
      | inl e ↦
          let away : text_key.same j k ≡ false = other_key k j apart in
          rw e (
            ap (λ x. find text_key x (store text_key k w (store text_key j v d)))
              (text_key.same_sound i j e)
            ∙ find-store_other text_key j k w (store text_key j v d) away
            ∙ find-store_same text_key j v d)
      | inr e ↦ rw e (elim (Bool-cases (text_key.same i k)) [
        | inl f ↦ rw f (
            ap (λ x. find text_key x (store text_key k w (store text_key j v d)))
              (text_key.same_sound i k f)
            ∙ find-store_same text_key k w (store text_key j v d))
        | inr f ↦ rw f (
            find-store_other text_key i k w (store text_key j v d) f
            ∙ find-store_other text_key i j v d e)
      ])
    ]
