-- ===== src/Euicc/Sessions.antt =====
-- Any sequence of operations on the eUICC (euicc/euicc.py), from the new card on.
use virtual_phone.Prelude.{
  ◌≡◌, ◌≢◌, refl, ap, sym, ◌∙◌, Option, none, some, List, [], ◌∷◌, ℕ, Result, ok, raised,
  Bool-cases, inl, inr,
}
use virtual_phone.Sms.Gsm7.{Text}
use virtual_phone.Euicc.{
  Euicc, ready, Isdp, enabled, is_enabled, ProfileData, lookup, put_profile, disable_current,
  enable_profile, disable_profile, delete_profile, install_profile, get_active_profile,
}
use virtual_phone.Euicc.Invariant.{WellFormed}
use virtual_phone.Euicc.Enable.{enabled_only}
use virtual_phone.Euicc.Operations.{
  after, sole, enable_profile-WellFormed, disable_profile-WellFormed, delete_profile-WellFormed,
}
use virtual_phone.Euicc.Memory.{installed, install_profile-WellFormed}

-- A call of the LPA.
pub data Operation : Type 0 where
  install : ProfileData → Text → Operation
  enable disable delete : Text → Operation

-- The card after a call; an exception goes to the caller and leaves the card as it was.
abbrev pub run : Operation → Euicc → Euicc
run (install profile_data fresh_aid) e = installed (install_profile profile_data fresh_aid e) e
run (enable iccid) e = after (enable_profile iccid e) e
run (disable iccid) e = after (disable_profile iccid e) e
run (delete iccid) e = after (delete_profile iccid e) e

abbrev pub run_all : List Operation → Euicc → Euicc
run_all [] e = e
run_all (op ∷ ops) e = run_all ops (run op e)

-- No package has the empty ICCID.
abbrev pub IsProper : Operation → Type 0
IsProper (install profile_data _) = profile_data.iccid ≢ some []
IsProper (enable _) = Unit
IsProper (disable _) = Unit
IsProper (delete _) = Unit

abbrev pub AreProper : List Operation → Type 0
AreProper [] = Unit
AreProper (op ∷ ops) = IsProper op × AreProper ops

run-WellFormed : (op : Operation) (e : Euicc) → IsProper op → WellFormed e → WellFormed (run op e)
run-WellFormed (install d aid) e proper h = install_profile-WellFormed d aid e proper h
run-WellFormed (enable k) e proper h = enable_profile-WellFormed k e h
run-WellFormed (disable k) e proper h = disable_profile-WellFormed k e h
run-WellFormed (delete k) e proper h = delete_profile-WellFormed k e h

run_all-WellFormed :
    (ops : List Operation) (e : Euicc) → AreProper ops → WellFormed e → WellFormed (run_all ops e)
run_all-WellFormed [] e proper h = h
run_all-WellFormed (op ∷ ops) e proper h =
    run_all-WellFormed ops (run op e) proper.1 (run-WellFormed op e proper.0 h)

-- An eUICC with no profile.
abbrev pub blank : ℕ → Euicc
blank memory = record {
  state = ready;
  free_nvram = memory;
  profiles = [];
  active_iccid = none;
  files = [];
}

blank-WellFormed : (memory : ℕ) → WellFormed (blank memory)
blank-WellFormed memory = record {
  kept = record {
    named = λ k p found. unfold virtual_phone.Prelude.find in cc;
    proper = unfold virtual_phone.Prelude.find in refl;
    saved = λ k. refl;
  };
  single = λ k p found on. unfold virtual_phone.Prelude.find in cc;
  live = λ k active. absurd (cc);
}

-- After any sequence of installations, enablings, disablings and deletions of a blank card, also
-- of calls that raise, where no package has the empty ICCID: each profile is kept under its own
-- ICCID, at most one is enabled, the enabled one is exactly the active one, and the files on disk
-- are the profiles in memory.
pub run_all-blank-WellFormed :
    (ops : List Operation) (memory : ℕ) → AreProper ops → WellFormed (run_all ops (blank memory))
run_all-blank-WellFormed ops memory proper =
    run_all-WellFormed ops (blank memory) proper (blank-WellFormed memory)

-- On a ready and well-formed card, enabling an installed profile succeeds, and afterwards the
-- active profile is an enabled one of that ICCID, and no profile of another ICCID is enabled.
pub enable_profile_lem :
    (iccid : Text) (e : Euicc) (target : Isdp)
    → e.state ≡ ready
    → WellFormed e
    → lookup iccid e.profiles ≡ some target
    → (e' : Euicc) × (enable_profile iccid e ≡ ok e')
      × ((p : Isdp) × (get_active_profile e' ≡ some p)
          × (p.iccid ≡ iccid)
          × (p.state ≡ enabled)
          × ((k : Text) (q : Isdp) → lookup k e'.profiles ≡ some q → q.state ≡ enabled → k ≡ iccid))
unfolding enable_profile
enable_profile_lem iccid e target up h found = elim (Bool-cases (is_enabled target.state)) [
  | inl already ↦ (
    e,
    rw (up, found, already) refl,
    sole iccid e h target found e h
        (h.single iccid target found (enabled_only target.state already)),
  )
  | inr off ↦
      let e' : Euicc =
        record (put_profile (record target { state = enabled }) (disable_current e)) {
          active_iccid = some iccid;
        } in
      let done : enable_profile iccid e ≡ ok e' = rw (up, found, off) refl in
      (
        e',
        done,
        sole iccid e h target found e' (rw done at (enable_profile-WellFormed iccid e h)) refl,
      )
]
