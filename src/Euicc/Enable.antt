-- ===== src/Euicc/Enable.antt =====
-- Profiles of the eUICC (euicc/euicc.py) that are stored as enabled or as disabled.
use virtual_phone.Prelude.{
  ◌≡◌, ◌≢◌, refl, sym, true, Option, none, some, List, [], Bool-cases, inl, inr, ap, ◌⊎◌, ◌∙◌,
  store, text_key, find-store_same,
}
use virtual_phone.Sms.Gsm7.{Text}
use virtual_phone.Euicc.{
  Euicc, Isdp, ProfileState, enabled, disabled, deleting, lookup, put_profile, is_enabled,
  clear_active,
}
use virtual_phone.Euicc.Invariant.{Kept, WellFormed, NoneEnabled, lookup-store, put_profile-Kept}

pub enabled_only : (s : ProfileState) → is_enabled s ≡ true → s ≡ enabled
enabled_only enabled h = refl
enabled_only disabled h = cc
enabled_only deleting h = cc

pub some_text : {s t : Text} → ◌≡◌ {A = Option Text} (some s) (some t) → s ≡ t
some_text e = cc

-- A profile stored as enabled where no other is.
pub enable_stored :
    (q : Isdp) (e : Euicc)
    → q.state ≡ enabled
    → q.iccid ≢ []
    → Kept e
    → NoneEnabled e
    → WellFormed (record (put_profile q e) { active_iccid = some q.iccid })
unfolding put_profile
enable_stored q e on n h quiet = record {
  kept = record {
    named = (put_profile-Kept q e n h).named;
    proper = (put_profile-Kept q e n h).proper;
    saved = (put_profile-Kept q e n h).saved;
  };
  single = λ k p found on'. elim (lookup-store k q p e.profiles found) [
    | inl (here, same) ↦ ap some (sym here)
    | inr (other, before) ↦ absurd (quiet k p before on')
  ];
  live = λ k active. (
    q,
    ap (λ j. lookup j (store text_key q.iccid q e.profiles)) (sym (some_text active))
        ∙ find-store_same text_key q.iccid q e.profiles,
    on,
  );
}

-- A profile stored as disabled, with the active one cleared if it was this.
clear_cases :
    (iccid : Text) (active : Option Text)
    → ((active ≡ some iccid) × (clear_active iccid active ≡ none))
      ⊎ ((active ≢ some iccid) × (clear_active iccid active ≡ active))
clear_cases iccid none = inr (λ (e : none ≡ some iccid). cc, refl)
clear_cases iccid (some a) = elim (Bool-cases (text_key.same a iccid)) [
  | inl e ↦ inl (ap some (text_key.same_sound a iccid e), rw e refl)
  | inr e ↦
      inr (λ (same : some a ≡ some iccid). cc (some_text same, e, text_key.same_refl a), rw e refl)
]

-- Where the profile of this name is no longer enabled, and every other is as it was.
pub quiet_one :
    (iccid : Text) (e : Euicc) (profiles files : List (Text × Isdp))
    → WellFormed e
    → Kept (record e { profiles = profiles; files = files })
    → ((p : Isdp) → lookup iccid profiles ≡ some p → p.state ≢ enabled)
    → ((k : Text) → k ≢ iccid → lookup k profiles ≡ lookup k e.profiles)
    → WellFormed (record e {
      profiles = profiles;
      files = files;
      active_iccid = clear_active iccid e.active_iccid;
    })
quiet_one iccid e profiles files h kept off others = record {
  kept = record { named = kept.named; proper = kept.proper; saved = kept.saved };
  single = λ k p found on. elim (Bool-cases (text_key.same k iccid)) [
    | inl same ↦
        absurd
          (off p (ap (λ j. lookup j profiles) (sym (text_key.same_sound k iccid same)) ∙ found) on)
    | inr other ↦
        let differs : k ≢ iccid = λ (s : k ≡ iccid). cc (other, s, text_key.same_refl k) in
        let active : e.active_iccid ≡ some k = h.single k p (sym (others k differs) ∙ found) on in
        elim (clear_cases iccid e.active_iccid) [
          | inl (this, cleared) ↦ absurd (differs (some_text (sym active ∙ this)))
          | inr (that, same) ↦ same ∙ active
        ]
  ];
  live = λ k active. elim (clear_cases iccid e.active_iccid) [
    | inl (this, cleared) ↦ cc
    | inr (that, same) ↦
        let before : e.active_iccid ≡ some k = sym same ∙ active in
        let (p, found, on) = h.live k before in
        let differs : k ≢ iccid = λ (s : k ≡ iccid). that (before ∙ ap some s) in
        (p, others k differs ∙ found, on)
  ];
}
