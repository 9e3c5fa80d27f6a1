-- ===== src/Euicc/Memory.antt =====
-- install_profile of the eUICC (euicc/euicc.py), and the free memory that it takes.
use virtual_phone.Prelude.{
  ℕ, ◌≡◌, ◌≢◌, refl, true, false, none, some, [], Bool-cases, Option-cases, inl, inr, ap, ◌∙◌,
  arith, ltb, ◌-◌, ◌+◌, ◌≤◌, Result, ok, raised, ◌>>=◌, store, remove, text_key, find-store_same,
  find-store_other, find-remove_same,
}
use virtual_phone.Sms.Gsm7.{Text}
use virtual_phone.Euicc.{
  Euicc, Isdp, disabled, ProfileData, lookup, put_profile, required_size, install_profile,
  delete_profile, is_ready, new_isdp, clear_active,
}
use virtual_phone.Euicc.Invariant.{WellFormed, lookup-store, put_profile-Kept}

-- A new profile that is stored as disabled.
install_stored :
    (q : Isdp) (e : Euicc) (memory : ℕ)
    → WellFormed e
    → q.state ≡ disabled
    → q.iccid ≢ []
    → lookup q.iccid e.profiles ≡ none
    → WellFormed (record (put_profile q e) { free_nvram = memory })
unfolding put_profile
install_stored q e memory h off n fresh = record {
  kept = record {
    named = (put_profile-Kept q e n h.kept).named;
    proper = (put_profile-Kept q e n h.kept).proper;
    saved = (put_profile-Kept q e n h.kept).saved;
  };
  single = λ k p found on. elim (lookup-store k q p e.profiles found) [
    | inl (here, same) ↦ cc
    | inr (other, before) ↦ h.single k p before on
  ];
  live = λ k active.
      let (p, found, on) = h.live k active in
      elim (Bool-cases (text_key.same k q.iccid)) [
        | inl same ↦ cc (text_key.same_sound k q.iccid same)
        | inr other ↦ (p, find-store_other text_key k q.iccid q e.profiles other ∙ found, on)
      ];
}

-- The state after an installation.
abbrev pub installed : Result (Euicc × Isdp) → Euicc → Euicc
installed (ok (e, isdp)) before = e
installed (raised error) before = before

pub install_profile-WellFormed :
    (profile_data : ProfileData) (fresh_aid : Text) (e : Euicc)
    → profile_data.iccid ≢ some []
    → WellFormed e
    → WellFormed (installed (install_profile profile_data fresh_aid e) e)
unfolding install_profile
install_profile-WellFormed d aid e proper h = elim (Bool-cases (is_ready e.state)) [
  | inr wait ↦ rw wait h
  | inl up ↦ elim (Option-cases d.iccid) [
    | inl missing ↦ rw (up, missing) h
    | inr (iccid, given) ↦ elim (Option-cases (lookup iccid e.profiles)) [
      | inr (p, twice) ↦ rw (up, given, twice) h
      | inl fresh ↦ elim (Bool-cases (ltb e.free_nvram (required_size d))) [
        | inl large ↦ rw (up, given, fresh, large) h
        | inr fits ↦ elim (Option-cases d.imsi) [
          | inl no_imsi ↦ rw (up, given, fresh, fits, no_imsi) h
          | inr (imsi, has_imsi) ↦ elim (Option-cases d.ki) [
            | inl no_ki ↦ rw (up, given, fresh, fits, has_imsi, no_ki) h
            | inr (ki, has_ki) ↦ elim (Option-cases d.opc) [
              | inl no_opc ↦ rw (up, given, fresh, fits, has_imsi, has_ki, no_opc) h
              | inr (opc, has_opc) ↦
                  rw (up, given, fresh, fits, has_imsi, has_ki, has_opc)
                    (install_stored (new_isdp d aid iccid imsi ki opc) e
                      (e.free_nvram - required_size d) h refl
                      (λ (empty : iccid ≡ []). proper (given ∙ ap some empty)) fresh)
            ]
          ]
        ]
      ]
    ]
  ]
]

-- A complete package that is not installed yet and fits the memory, on a ready card.
pub record Installable (d : ProfileData) (e : Euicc) (iccid : Text) : Type 0 where
  pub up : is_ready e.state ≡ true
  pub named : d.iccid ≡ some iccid
  pub fresh : lookup iccid e.profiles ≡ none
  pub fits : required_size d ≤ e.free_nvram
  pub imsi : (s : Text) × (d.imsi ≡ some s)
  pub ki : (s : Text) × (d.ki ≡ some s)
  pub opc : (s : Text) × (d.opc ≡ some s)

no_excess : (a b : ℕ) → a ≤ b → ltb b a ≡ false
no_excess a b h = ground arith

sub_add : (a b : ℕ) → a ≤ b → b - a + a ≡ b
sub_add a b h = omega arith

-- Installing a profile that is complete, new and fits, and then deleting it, succeeds and leaves
-- less free memory than before, by the whole size of the profile.
pub delete-install :
    (d : ProfileData) (fresh_aid iccid : Text) (e : Euicc)
    → Installable d e iccid
    → (e' : Euicc) × ((install_profile d fresh_aid e >>= λ r. delete_profile iccid r.0) ≡ ok e')
      × (lookup iccid e'.profiles ≡ none)
      × (e'.free_nvram + required_size d ≡ e.free_nvram)
unfolding install_profile delete_profile put_profile
delete-install d aid iccid e h =
    let (imsi, has_imsi) = h.imsi in
    let (ki, has_ki) = h.ki in
    let (opc, has_opc) = h.opc in
    let q : Isdp = new_isdp d aid iccid imsi ki opc in
    (
      record e {
        free_nvram = e.free_nvram - required_size d;
        profiles = remove text_key iccid (store text_key iccid q e.profiles);
        active_iccid = clear_active iccid e.active_iccid;
        files = remove text_key iccid (store text_key iccid q e.files);
      },
      rw
          (
            h.up,
            h.named,
            h.fresh,
            no_excess (required_size d) e.free_nvram h.fits,
            has_imsi,
            has_ki,
            has_opc,
            find-store_same text_key iccid q e.profiles,
          )
          (rw h.up refl),
      find-remove_same text_key iccid (store text_key iccid q e.profiles),
      sub_add (required_size d) e.free_nvram h.fits,
    )
