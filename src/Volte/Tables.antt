-- ===== src/Volte/Tables.antt =====
-- The table of calls (ims/volte.py) and the list of voice calls (hal/radio_hal.py): keys, ports and
-- indexes, and what the primitive changes do to them.
use virtual_phone.Prelude.{
  ℕ, ◌+◌, ◌≤◌, ◌≡◌, refl, sym, ap, ◌∙◌, subst, Bool, true, false, Option, none, some, List, [], ◌∷◌,
  arith, Bool-cases, Option-cases, inl, inr, find, store, remove, text_key, find-store_other,
  find-remove_same, find-remove_other,
}
use virtual_phone.Sms.Gsm7.{Text}
use virtual_phone.Volte.State.{VolteCall, VolteCallState}
use virtual_phone.Volte.Hold.{first_call, last_call}

abbrev pub Table : Type 0
Table = List (Text × VolteCall)

abbrev pub at : Text → Table → Option VolteCall
at id d = find text_key id d

-- The ports grow along the table by two at least, from `lo` on, and end before `hi`.
abbrev pub Ports : ℕ → ℕ → Table → Type 0
Ports lo hi [] = lo ≤ hi
Ports lo hi ((id, call) ∷ rest) = (lo ≤ call.rtp_port) × Ports (call.rtp_port + 2) hi rest

-- Each call stands under its own Call-ID, and no other has it.
abbrev pub Keyed : Table → Type 0
Keyed [] = Unit
Keyed ((id, call) ∷ rest) = (call.sip_call_id ≡ id) × (at id rest ≡ none) × Keyed rest

Ports-lower : (lo lo' hi : ℕ) (d : Table) → lo' ≤ lo → Ports lo hi d → Ports lo' hi d
Ports-lower lo lo' hi [] le h = omega arith
Ports-lower lo lo' hi (e ∷ rest) le h = (omega (arith, h.0), h.1)

same_port :
    (a b : VolteCall) → ◌≡◌ {A = Option VolteCall} (some a) (some b) → b.rtp_port ≡ a.rtp_port
same_port a b e = cc

pub store-Ports :
    (id : Text) (call found : VolteCall) (lo hi : ℕ) (d : Table)
    → at id d ≡ some found
    → call.rtp_port ≡ found.rtp_port
    → Ports lo hi d
    → Ports lo hi (store text_key id call d)
unfolding find store
store-Ports id call found lo hi [] there port h = absurd (cc)
store-Ports id call found lo hi ((k, old) ∷ rest) there port h =
    elim (Bool-cases (text_key.same id k)) [
      | inl e ↦
          let same : found.rtp_port ≡ old.rtp_port = same_port old found (rw e at there) in
          rw e (
            omega (arith, port, same, h.0),
            subst (λ n. Ports (n + 2) hi rest) (sym (port ∙ same)) h.1,
          )
      | inr e ↦
          rw e (h.0, store-Ports id call found (old.rtp_port + 2) hi rest (rw e at there) port h.1)
    ]

pub add-Ports :
    (id : Text) (call : VolteCall) (lo hi : ℕ) (d : Table)
    → at id d ≡ none
    → call.rtp_port ≡ hi
    → Ports lo hi d
    → Ports lo (hi + 2) (store text_key id call d)
unfolding find store
add-Ports id call lo hi [] there port h = (omega (arith, port, h), omega (arith, port))
add-Ports id call lo hi ((k, old) ∷ rest) there port h = elim (Bool-cases (text_key.same id k)) [
  | inl e ↦ let wrong : some old ≡ none = rw e at there in absurd (cc)
  | inr e ↦ rw e (h.0, add-Ports id call (old.rtp_port + 2) hi rest (rw e at there) port h.1)
]

pub remove-Ports :
    (id : Text) (lo hi : ℕ) (d : Table) → Ports lo hi d → Ports lo hi (remove text_key id d)
unfolding remove
remove-Ports id lo hi [] h = h
remove-Ports id lo hi ((k, old) ∷ rest) h = elim (Bool-cases (text_key.same id k)) [
  | inl e ↦ rw e (
      Ports-lower (old.rtp_port + 2) lo hi (remove text_key id rest) (omega (arith, h.0))
        (remove-Ports id (old.rtp_port + 2) hi rest h.1))
  | inr e ↦ rw e (h.0, remove-Ports id (old.rtp_port + 2) hi rest h.1)
]

pub other_key : (a b : Text) → text_key.same a b ≡ false → text_key.same b a ≡ false
other_key a b e = elim (Bool-cases (text_key.same b a)) [
  | inl same ↦ cc (text_key.same_sound b a same, text_key.same_refl a)
  | inr differ ↦ differ
]

pub store-Keyed :
    (id : Text) (call : VolteCall) (d : Table)
    → call.sip_call_id ≡ id
    → Keyed d
    → Keyed (store text_key id call d)
unfolding find store
store-Keyed id call [] name h = (name, refl, tt)
store-Keyed id call ((k, old) ∷ rest) name h = elim (Bool-cases (text_key.same id k)) [
  | inl e ↦ rw e (name ∙ text_key.same_sound id k e, h.1, h.2)
  | inr e ↦ rw e (
    h.0,
    find-store_other text_key k id call rest (other_key id k e) ∙ h.1,
    store-Keyed id call rest name h.2,
  )
]

gone_after : (k id : Text) (d : Table) → at k d ≡ none → at k (remove text_key id d) ≡ none
gone_after k id d h = elim (Bool-cases (text_key.same k id)) [
  | inl e ↦
      ap (λ j. at j (remove text_key id d)) (text_key.same_sound k id e)
      ∙ find-remove_same text_key id d
  | inr e ↦ find-remove_other text_key k id d e ∙ h
]

pub remove-Keyed : (id : Text) (d : Table) → Keyed d → Keyed (remove text_key id d)
unfolding remove
remove-Keyed id [] h = tt
remove-Keyed id ((k, old) ∷ rest) h = elim (Bool-cases (text_key.same id k)) [
  | inl e ↦ rw e (remove-Keyed id rest h.2)
  | inr e ↦ rw e (h.0, gone_after k id rest h.1, remove-Keyed id rest h.2)
]

-- A call that is found has the Call-ID that it was looked for by.
pub found-name :
    (id : Text) (call : VolteCall) (d : Table)
    → Keyed d
    → at id d ≡ some call
    → call.sip_call_id ≡ id
unfolding find
found-name id call [] h there = absurd (cc)
found-name id call ((k, old) ∷ rest) h there = elim (Bool-cases (text_key.same id k)) [
  | inl e ↦ let this : some old ≡ some call = rw e at there in cc (h.0, text_key.same_sound id k e)
  | inr e ↦ found-name id call rest h.2 (rw e at there)
]

-- A call found below the head of a table is found in the whole.
below :
    (id k : Text) (old call : VolteCall) (rest : Table)
    → at k rest ≡ none
    → at id rest ≡ some call
    → at id ((k, old) ∷ rest) ≡ some call
unfolding find
below id k old call rest missing there = elim (Bool-cases (text_key.same id k)) [
  | inl e ↦ cc (text_key.same_sound id k e)
  | inr e ↦ rw e there
]

head_found :
    (k : Text) (old : VolteCall) (rest : Table)
    → old.sip_call_id ≡ k
    → at old.sip_call_id ((k, old) ∷ rest) ≡ some old
unfolding find
head_found k old rest name = rw (name, text_key.same_refl k) refl

pub last_call_found :
    (test : VolteCallState → Bool) (d : Table) (call : VolteCall)
    → Keyed d
    → last_call test d ≡ some call
    → (at call.sip_call_id d ≡ some call) × (test call.state ≡ true)
unfolding last_call
last_call_found test [] call h last = absurd (cc)
last_call_found test ((k, old) ∷ rest) call h last = elim (Option-cases (last_call test rest)) [
  | inr (later, e) ↦
      let this : some later ≡ some call = rw e at last in
      let ih = last_call_found test rest call h.2 (e ∙ this) in
      (below call.sip_call_id k old call rest h.1 ih.0, ih.1)
  | inl e ↦ elim (Bool-cases (test old.state)) [
    | inl yes_it ↦
        let this : old ≡ call = cc (rw (e, yes_it) at last) in
        subst (λ c. (at c.sip_call_id ((k, old) ∷ rest) ≡ some c) × (test c.state ≡ true)) this
          (head_found k old rest h.0, yes_it)
    | inr no_it ↦ let wrong : none ≡ some call = rw (e, no_it) at last in absurd (cc)
  ]
]

pub first_call_found :
    (test : VolteCallState → Bool) (d : Table) (call : VolteCall)
    → Keyed d
    → first_call test d ≡ some call
    → (at call.sip_call_id d ≡ some call) × (test call.state ≡ true)
unfolding first_call
first_call_found test [] call h first = absurd (cc)
first_call_found test ((k, old) ∷ rest) call h first = elim (Bool-cases (test old.state)) [
  | inl yes_it ↦
      let this : some old ≡ some call = rw yes_it at first in
      let same : old ≡ call = cc (this) in
      subst (λ c. (at c.sip_call_id ((k, old) ∷ rest) ≡ some c) × (test c.state ≡ true)) same
        (head_found k old rest h.0, yes_it)
  | inr no_it ↦
      let ih = first_call_found test rest call h.2 (rw no_it at first) in
      (below call.sip_call_id k old call rest h.1 ih.0, ih.1)
]
