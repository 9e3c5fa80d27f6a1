-- ===== src/Euicc/Operations.antt =====
-- delete_profile, disable_profile and enable_profile of the eUICC (euicc/euicc.py) on a card that
-- is well-formed.
use virtual_phone.Prelude.{
  ◌≡◌, ◌≢◌, refl, sym, true, none, some, List, [], ◌∷◌, Bool-cases, Option-cases, inl, inr, ap, ◌∙◌,
  subst, Result, ok, raised, store, remove, text_key, find-store_other, find-remove_same,
  find-remove_other,
}
use virtual_phone.Sms.Gsm7.{Text}
use virtual_phone.Euicc.{
  Euicc, Isdp, enabled, disabled, lookup, put_profile, is_enabled, is_disabled, live_profile,
  disable_current, clear_active, enable_profile, disable_profile, delete_profile,
  get_active_profile, is_ready,
}
use virtual_phone.Euicc.Invariant.{
  Kept, WellFormed, lookup-store, put_profile-Kept, found_proper, found_named, disable_current_lem,
  same_false,
}
use virtual_phone.Euicc.Enable.{some_text, enable_stored, quiet_one}

-- The state after an operation: one that raises has changed nothing.
abbrev pub after {ℓ} : {A : Type ℓ} → Result A → A → A
after (ok a) before = a
after (raised error) before = before

live_profile_proper :
    (k : Text) (d : List (Text × Isdp)) → k ≢ [] → live_profile (some k) d ≡ lookup k d
live_profile_proper [] d n = absurd (n refl)
live_profile_proper (c ∷ k) d n = refl

module _ (iccid : Text) (e : Euicc) (h : WellFormed e) where
  -- Deleting.
  delete-Kept : Kept (record e {
    profiles = remove text_key iccid e.profiles;
    files = remove text_key iccid e.files;
  })
  delete-Kept =
      let gone : (k : Text) (d : List (Text × Isdp))
          → text_key.same k iccid ≡ true
          → lookup k (remove text_key iccid d) ≡ none =
        λ k d same.
          ap (λ j. lookup j (remove text_key iccid d)) (text_key.same_sound k iccid same)
          ∙ find-remove_same text_key iccid d in
      record {
        named = λ k p found. elim (Bool-cases (text_key.same k iccid)) [
          | inl same ↦ cc (gone k e.profiles same)
          | inr other ↦
              h.kept.named k p (sym (find-remove_other text_key k iccid e.profiles other) ∙ found)
        ];
        proper = elim (Bool-cases (text_key.same [] iccid)) [
          | inl same ↦ gone [] e.profiles same
          | inr other ↦ find-remove_other text_key [] iccid e.profiles other ∙ h.kept.proper
        ];
        saved = λ k. elim (Bool-cases (text_key.same k iccid)) [
          | inl same ↦ gone k e.files same ∙ sym (gone k e.profiles same)
          | inr other ↦
              find-remove_other text_key k iccid e.files other
              ∙ h.kept.saved k
              ∙ sym (find-remove_other text_key k iccid e.profiles other)
        ];
      }

  pub delete_profile-WellFormed : WellFormed (after (delete_profile iccid e) e)
  unfolding delete_profile
  delete_profile-WellFormed = elim (Bool-cases (is_ready e.state)) [
    | inr wait ↦ rw wait h
    | inl up ↦ elim (Option-cases (lookup iccid e.profiles)) [
      | inl missing ↦ rw (up, missing) h
      | inr (target, found) ↦
          rw (up, found)
            (quiet_one iccid e (remove text_key iccid e.profiles) (remove text_key iccid e.files) h
              delete-Kept (λ p found'. cc (find-remove_same text_key iccid e.profiles))
              (λ k other. find-remove_other text_key k iccid e.profiles (same_false k iccid other)))
    ]
  ]

  -- Disabling.
  off_stored :
      (target : Isdp)
      → lookup iccid e.profiles ≡ some target
      → let off : Isdp = record target { state = disabled } in
        WellFormed (record (put_profile off e) { active_iccid = clear_active iccid e.active_iccid })
  unfolding put_profile
  off_stored target found =
      let off : Isdp = record target { state = disabled } in
      let name : target.iccid ≡ iccid = h.kept.named iccid target found in
      quiet_one iccid e (store text_key target.iccid off e.profiles)
        (store text_key target.iccid off e.files) h
        (put_profile-Kept off e (found_named e iccid target h.kept found) h.kept)
        (λ p found'. elim (lookup-store iccid off p e.profiles found') [
          | inl (here, same) ↦ λ (on : p.state ≡ enabled). cc
          | inr (other, before) ↦ absurd (other (sym name))
        ])
        (λ k other.
          find-store_other text_key k target.iccid off e.profiles
            (same_false k target.iccid (λ (s : k ≡ target.iccid). other (s ∙ name))))

  pub disable_profile-WellFormed : WellFormed (after (disable_profile iccid e) e)
  unfolding disable_profile
  disable_profile-WellFormed = elim (Bool-cases (is_ready e.state)) [
    | inr wait ↦ rw wait h
    | inl up ↦ elim (Option-cases (lookup iccid e.profiles)) [
      | inl missing ↦ rw (up, missing) h
      | inr (target, found) ↦ elim (Bool-cases (is_disabled target.state)) [
        | inl already ↦ rw (up, found, already) h
        | inr on ↦ rw (up, found, on) (off_stored target found)
      ]
    ]
  ]

  -- Enabling.
  on_stored :
      (target : Isdp)
      → lookup iccid e.profiles ≡ some target
      → let on : Isdp = record target { state = enabled } in
        WellFormed (record (put_profile on (disable_current e)) { active_iccid = some iccid })
  on_stored target found =
      let on : Isdp = record target { state = enabled } in
      let (kept, quiet) = disable_current_lem e h in
      subst
        (λ k. WellFormed (record (put_profile on (disable_current e)) { active_iccid = some k }))
        (h.kept.named iccid target found)
        (enable_stored on (disable_current e) refl (found_named e iccid target h.kept found) kept
          quiet)

  pub enable_profile-WellFormed : WellFormed (after (enable_profile iccid e) e)
  unfolding enable_profile
  enable_profile-WellFormed = elim (Bool-cases (is_ready e.state)) [
    | inr wait ↦ rw wait h
    | inl up ↦ elim (Option-cases (lookup iccid e.profiles)) [
      | inl missing ↦ rw (up, missing) h
      | inr (target, found) ↦ elim (Bool-cases (is_enabled target.state)) [
        | inl already ↦ rw (up, found, already) h
        | inr off ↦ rw (up, found, off) (on_stored target found)
      ]
    ]
  ]

  pub sole :
      (target : Isdp)
      → lookup iccid e.profiles ≡ some target
      → (e' : Euicc) → WellFormed e'
      → e'.active_iccid ≡ some iccid
      → (p : Isdp) × (get_active_profile e' ≡ some p)
        × (p.iccid ≡ iccid)
        × (p.state ≡ enabled)
        × ((k : Text) (q : Isdp) → lookup k e'.profiles ≡ some q → q.state ≡ enabled → k ≡ iccid)
  unfolding get_active_profile
  sole target found e' h' active =
      let (p, there, on) = h'.live iccid active in
      (
        p,
        ap (λ a. live_profile a e'.profiles) active
            ∙ live_profile_proper iccid e'.profiles (found_proper e iccid target h.kept found)
            ∙ there,
        h'.kept.named iccid p there,
        on,
        λ k q found' on'. some_text (sym (h'.single k q found' on') ∙ active),
      )
