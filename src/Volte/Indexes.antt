-- ===== src/Volte/Indexes.antt =====
-- The indexes of the voice calls (hal/radio_hal.py) under the changes of the list.
use virtual_phone.Prelude.{
  ℕ, suc, ◌+◌, ◌≤◌, ◌≡◌, subst, Option, none, some, List, [], ◌∷◌, ◌++◌, ◌==◌, ==_iff, arith,
  Bool-cases, Option-cases, inl, inr, text_key, ◌||◌,
}
use virtual_phone.Sms.Gsm7.{Text}
use virtual_phone.Volte.State.{
  VoiceCall, CallState, Radio, set_voice, changed_voice, indicate, update_call_state, without_voice,
}
use virtual_phone.Volte.Hold.{merge_voice}
use virtual_phone.Volte.Voice.{put_voice, name_voice}
use virtual_phone.Volte.Incoming.{without_sip}

-- The indexes grow along the list, from `lo` on and below `hi`; so no two calls share one.
abbrev pub Indexes : ℕ → ℕ → List VoiceCall → Type 0
Indexes lo hi [] = lo ≤ hi
Indexes lo hi (vc ∷ rest) = (lo ≤ vc.index) × Indexes (suc vc.index) hi rest

pub Indexes-lower :
    (lo lo' hi : ℕ) (vs : List VoiceCall) → lo' ≤ lo → Indexes lo hi vs → Indexes lo' hi vs
Indexes-lower lo lo' hi [] le h = omega arith
Indexes-lower lo lo' hi (vc ∷ rest) le h = (omega (arith, h.0), h.1)

pub Indexes-bounds : (lo hi : ℕ) (vs : List VoiceCall) → Indexes lo hi vs → lo ≤ hi
Indexes-bounds lo hi [] h = h
Indexes-bounds lo hi (vc ∷ rest) h = omega (arith, h.0, Indexes-bounds (suc vc.index) hi rest h.1)

abbrev pub AllIndexes : ℕ → ℕ → Option (List VoiceCall) → Type 0
AllIndexes lo hi none = Unit
AllIndexes lo hi (some vs) = Indexes lo hi vs

pub set_voice-Indexes :
    (index : ℕ) (state : CallState) (lo hi : ℕ) (vs : List VoiceCall)
    → Indexes lo hi vs
    → AllIndexes lo hi (set_voice index state vs)
unfolding set_voice
set_voice-Indexes index state lo hi [] h = tt
set_voice-Indexes index state lo hi (vc ∷ rest) h = elim (Bool-cases (vc.index == index)) [
  | inl e ↦ rw e h
  | inr e ↦ rw e (elim (Option-cases (set_voice index state rest)) [
    | inl missing ↦ rw missing tt
    | inr (others, found) ↦
        let ih : AllIndexes (suc vc.index) hi (some others) =
          rw found at (set_voice-Indexes index state (suc vc.index) hi rest h.1) in
        rw found (h.0, ih)
  ])
]

pub without_voice-Indexes :
    (index lo hi : ℕ) (vs : List VoiceCall)
    → Indexes lo hi vs
    → AllIndexes lo hi (without_voice index vs)
unfolding without_voice
without_voice-Indexes index lo hi [] h = tt
without_voice-Indexes index lo hi (vc ∷ rest) h = elim (Bool-cases (vc.index == index)) [
  | inl e ↦ rw e (Indexes-lower (suc vc.index) lo hi rest (omega (arith, h.0)) h.1)
  | inr e ↦ rw e (elim (Option-cases (without_voice index rest)) [
    | inl missing ↦ rw missing tt
    | inr (others, found) ↦
        let ih : AllIndexes (suc vc.index) hi (some others) =
          rw found at (without_voice-Indexes index (suc vc.index) hi rest h.1) in
        rw found (h.0, ih)
  ])
]

pub put_voice-Indexes :
    (new : VoiceCall) (lo hi : ℕ) (vs : List VoiceCall)
    → Indexes lo hi vs
    → Indexes lo hi (put_voice new vs)
unfolding put_voice
put_voice-Indexes new lo hi [] h = h
put_voice-Indexes new lo hi (vc ∷ rest) h = elim (Bool-cases (vc.index == new.index)) [
  | inl e ↦
      rw e (subst (λ n. (lo ≤ n) × Indexes (suc n) hi rest) ((==_iff vc.index new.index).0 e) h)
  | inr e ↦ rw e (h.0, put_voice-Indexes new (suc vc.index) hi rest h.1)
]

pub name_voice-Indexes :
    (index : ℕ) (id : Text) (lo hi : ℕ) (vs : List VoiceCall)
    → Indexes lo hi vs
    → Indexes lo hi (name_voice index id vs)
unfolding name_voice
name_voice-Indexes index id lo hi [] h = h
name_voice-Indexes index id lo hi (vc ∷ rest) h = elim (Bool-cases (vc.index == index)) [
  | inl e ↦ rw e h
  | inr e ↦ rw e (h.0, name_voice-Indexes index id (suc vc.index) hi rest h.1)
]

pub without_sip-Indexes :
    (id : Text) (lo hi : ℕ) (vs : List VoiceCall)
    → Indexes lo hi vs
    → Indexes lo hi (without_sip id vs)
unfolding without_sip
without_sip-Indexes id lo hi [] h = h
without_sip-Indexes id lo hi (vc ∷ rest) h = elim (Bool-cases (text_key.same vc.sip_call_id id)) [
  | inl e ↦ rw e (Indexes-lower (suc vc.index) lo hi rest (omega (arith, h.0)) h.1)
  | inr e ↦ rw e (h.0, without_sip-Indexes id (suc vc.index) hi rest h.1)
]

pub merge_voice-Indexes :
    (a b : Text) (lo hi : ℕ) (vs : List VoiceCall)
    → Indexes lo hi vs
    → Indexes lo hi (merge_voice a b vs)
unfolding merge_voice
merge_voice-Indexes a b lo hi [] h = h
merge_voice-Indexes a b lo hi (vc ∷ rest) h =
    elim (Bool-cases (text_key.same vc.sip_call_id a || text_key.same vc.sip_call_id b)) [
      | inl e ↦ rw e (h.0, merge_voice-Indexes a b (suc vc.index) hi rest h.1)
      | inr e ↦ rw e (h.0, merge_voice-Indexes a b (suc vc.index) hi rest h.1)
    ]

pub append-Indexes :
    (new : VoiceCall) (lo hi : ℕ) (vs : List VoiceCall)
    → new.index ≡ hi
    → Indexes lo hi vs
    → Indexes lo (hi + 1) (vs ++ (new ∷ []))
append-Indexes new lo hi [] e h = (omega (arith, e, h), omega (arith, e))
append-Indexes new lo hi (vc ∷ rest) e h = (h.0, append-Indexes new (suc vc.index) hi rest e h.1)

abbrev pub Ordered : Radio → Type 0
Ordered r = Indexes 0 r.next_call_index r.voice_calls

pub update_call_state-Ordered :
    (index : ℕ) (state : CallState) (r : Radio)
    → Ordered r
    → Ordered (update_call_state index state r)
unfolding update_call_state changed_voice indicate
update_call_state-Ordered index state r h =
    elim (Option-cases (set_voice index state r.voice_calls)) [
      | inl missing ↦ rw missing h
      | inr (others, found) ↦
          let after : AllIndexes 0 r.next_call_index (some others) =
            rw found at (set_voice-Indexes index state 0 r.next_call_index r.voice_calls h) in
          rw found after
    ]
