-- ===== src/Euicc/Invariant.antt =====
-- The well-formed card of euicc/euicc.py: names, the enabled and the active profile, and the disk.
use virtual_phone.Prelude.{
  ◌≡◌, ◌≢◌, refl, sym, false, Option, none, some, List, [], ◌∷◌, Bool-cases, inl, inr, ap, ◌⊎◌, ◌∙◌,
  store, text_key, find-store_same, find-store_other,
}
use virtual_phone.Sms.Gsm7.{Text}
use virtual_phone.Euicc.{
  Euicc, Isdp, enabled, disabled, lookup, put_profile, live_profile, disable_found, disable_current,
}

-- What a single profile's change keeps.
pub record Kept (e : Euicc) : Type 0 where
  pub named : (k : Text) (p : Isdp) → lookup k e.profiles ≡ some p → p.iccid ≡ k
  pub proper : lookup [] e.profiles ≡ none
  pub saved : (k : Text) → lookup k e.files ≡ lookup k e.profiles

pub record WellFormed (e : Euicc) : Type 0 where
  pub kept : Kept e
  pub single :
      (k : Text) (p : Isdp)
      → lookup k e.profiles ≡ some p
      → p.state ≡ enabled
      → e.active_iccid ≡ some k
  pub live :
      (k : Text)
      → e.active_iccid ≡ some k
      → (p : Isdp) × (lookup k e.profiles ≡ some p) × (p.state ≡ enabled)

abbrev pub NoneEnabled : Euicc → Type 0
NoneEnabled e = (k : Text) (p : Isdp) → lookup k e.profiles ≡ some p → p.state ≢ enabled

pub some_injective : {p q : Isdp} → ◌≡◌ {A = Option Isdp} (some p) (some q) → p ≡ q
some_injective e = cc

pub same_false : (k j : Text) → k ≢ j → text_key.same k j ≡ false
same_false k j n = elim (Bool-cases (text_key.same k j)) [
  | inl e ↦ absurd (n (text_key.same_sound k j e))
  | inr e ↦ e
]

-- Where a profile is found after another one was stored.
pub lookup-store :
    (k : Text) (q p : Isdp) (d : List (Text × Isdp))
    → lookup k (store text_key q.iccid q d) ≡ some p
    → ((k ≡ q.iccid) × (p ≡ q)) ⊎ ((k ≢ q.iccid) × (lookup k d ≡ some p))
lookup-store k q p d h = elim (Bool-cases (text_key.same k q.iccid)) [
  | inl e ↦
      let here : k ≡ q.iccid = text_key.same_sound k q.iccid e in
      inl (
        here,
        some_injective (
            sym h
            ∙ ap (λ j. lookup j (store text_key q.iccid q d)) here
            ∙ find-store_same text_key q.iccid q d),
      )
  | inr e ↦ inr (
    λ (same : k ≡ q.iccid). cc (e, same, text_key.same_refl q.iccid),
    sym (find-store_other text_key k q.iccid q d e) ∙ h,
  )
]

pub put_profile-Kept : (q : Isdp) (e : Euicc) → q.iccid ≢ [] → Kept e → Kept (put_profile q e)
unfolding put_profile
put_profile-Kept q e n h = record {
  named = λ k p found. elim (lookup-store k q p e.profiles found) [
    | inl (here, same) ↦ ap (λ (r : Isdp). r.iccid) same ∙ sym here
    | inr (other, before) ↦ h.named k p before
  ];
  proper =
      find-store_other text_key [] q.iccid q e.profiles
        (same_false [] q.iccid (λ (same : [] ≡ q.iccid). n (sym same)))
      ∙ h.proper;
  saved = λ k. elim (Bool-cases (text_key.same k q.iccid)) [
    | inl e' ↦ cc (
      text_key.same_sound k q.iccid e',
      find-store_same text_key q.iccid q e.profiles,
      find-store_same text_key q.iccid q e.files,
    )
    | inr e' ↦
        find-store_other text_key k q.iccid q e.files e'
        ∙ h.saved k
        ∙ sym (find-store_other text_key k q.iccid q e.profiles e')
  ];
}

-- A name under which a profile is kept is not empty.
pub found_proper :
    (e : Euicc) (k : Text) (p : Isdp) → Kept e → lookup k e.profiles ≡ some p → k ≢ []
found_proper e k p h found = λ (same : k ≡ []). cc (h.proper)

pub found_named :
    (e : Euicc) (k : Text) (p : Isdp) → Kept e → lookup k e.profiles ≡ some p → p.iccid ≢ []
found_named e k p h found =
    λ (same : p.iccid ≡ []). found_proper e k p h found (sym (h.named k p found) ∙ same)

-- The active profile that the operations see.
pub active_cases :
    (e : Euicc)
    → WellFormed e
    → ((live_profile e.active_iccid e.profiles ≡ none) × (e.active_iccid ≡ none))
      ⊎ ((k : Text) × (p : Isdp) × (e.active_iccid ≡ some k)
          × (live_profile e.active_iccid e.profiles ≡ some p)
          × (lookup k e.profiles ≡ some p)
          × (p.state ≡ enabled))
active_cases e h = go e.active_iccid refl
  where
    go :
        (a : Option Text)
        → e.active_iccid ≡ a
        → ((live_profile a e.profiles ≡ none) × (a ≡ none))
          ⊎ ((k : Text) × (p : Isdp) × (a ≡ some k)
              × (live_profile a e.profiles ≡ some p)
              × (lookup k e.profiles ≡ some p)
              × (p.state ≡ enabled))
    go none eq = inl (refl, refl)
    go (some []) eq =
        let (p, found, on) = h.live [] eq in absurd (found_proper e [] p h.kept found refl)
    go (some (c ∷ k)) eq =
        let (p, found, on) = h.live (c ∷ k) eq in inr (c ∷ k, p, refl, found, found, on)

pub disable_current_lem :
    (e : Euicc) → WellFormed e → Kept (disable_current e) × NoneEnabled (disable_current e)
unfolding disable_current disable_found
disable_current_lem e h = elim (active_cases e h) [
  | inl (dead, inactive) ↦ rw dead (h.kept, λ k p found on. cc (h.single k p found on))
  | inr (k, p, active, live, found, on) ↦
      let off : Isdp = record p { state = disabled } in
      rw live (
        put_profile-Kept off e (found_named e k p h.kept found) h.kept,
        λ j q found' on'.
            unfold put_profile in
            elim (lookup-store j off q e.profiles found') [
              | inl (here, same) ↦ cc
              | inr (other, before) ↦ other (
                  some_text (sym (h.single j q before on') ∙ active) ∙ sym (h.kept.named k p found))
            ],
      )
]
  where
    some_text : {s t : Text} → ◌≡◌ {A = Option Text} (some s) (some t) → s ≡ t
    some_text e = cc
