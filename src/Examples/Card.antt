-- ===== src/Examples/Card.antt =====
-- The eUICC at concrete inputs.
use virtual_phone.Prelude.{
  ◌≡◌, refl, none, some, List, [], ◌∷◌, ◌+◌, arith, ok, ◌>>=◌, find, store, same_text,
}
use virtual_phone.Sms.Gsm7.{Text}
use virtual_phone.Euicc.{
  Euicc, ready, Isdp, enabled, ProfileData, lookup, required_size, install_profile, enable_profile,
  delete_profile, get_active_profile,
}
use virtual_phone.Euicc.Invariant.{WellFormed}
use virtual_phone.Euicc.Memory.{Installable, delete-install}
use virtual_phone.Euicc.Sessions.{
  Operation, install, enable, disable, delete, run_all, AreProper, blank, run_all-blank-WellFormed,
  enable_profile_lem,
}

abbrev profile : Text → ProfileData
profile iccid = record {
  iccid = some iccid;
  imsi = some (0x30 ∷ []);
  ki = some (0x30 ∷ []);
  opc = some (0x30 ∷ []);
  mcc = none;
  mnc = none;
  spn = none;
  msisdn = none;
  impi = none;
  impu = none;
  home_domain = none;
  aid = none;
  profile_size = none;
}

abbrev first : Text
first = 0x38 ∷ 0x39 ∷ []

abbrev second : Text
second = 0x38 ∷ 0x38 ∷ []

abbrev calls : List Operation
calls =
    install (profile first) []
    ∷ install (profile second) []
    ∷ enable first
    ∷ enable second
    ∷ delete first
    ∷ disable first
    ∷ []

calls-AreProper : AreProper calls
calls-AreProper = (
  λ (e : some first ≡ some []). cc,
  (λ (e : some second ≡ some []). cc, (tt, (tt, (tt, (tt, tt))))),
)

run_all-blank-WellFormed_example : WellFormed (run_all calls (blank 524288))
run_all-blank-WellFormed_example = run_all-blank-WellFormed calls 524288 calls-AreProper

abbrev two : List Operation
two = install (profile first) [] ∷ install (profile second) [] ∷ []

two-WellFormed : WellFormed (run_all two (blank 524288))
two-WellFormed =
    run_all-blank-WellFormed two 524288
      (λ (e : some first ≡ some []). cc, (λ (e : some second ≡ some []). cc, tt))

abbrev first_isdp : Isdp
first_isdp =
    virtual_phone.Euicc.new_isdp (profile first) [] first (0x30 ∷ []) (0x30 ∷ []) (0x30 ∷ [])

two_ready : (run_all two (blank 524288)).state ≡ ready
unfolding install_profile virtual_phone.Euicc.put_profile find same_text store
two_ready = refl

two_found : lookup first (run_all two (blank 524288)).profiles ≡ some first_isdp
unfolding install_profile virtual_phone.Euicc.put_profile find store same_text
two_found = refl

enable_profile_lem_example :
    (e : Euicc) × (enable_profile first (run_all two (blank 524288)) ≡ ok e)
    × ((p : Isdp) × (get_active_profile e ≡ some p)
        × (p.iccid ≡ first)
        × (p.state ≡ enabled)
        × ((k : Text) (q : Isdp) → lookup k e.profiles ≡ some q → q.state ≡ enabled → k ≡ first))
enable_profile_lem_example =
    enable_profile_lem first (run_all two (blank 524288)) first_isdp two_ready two-WellFormed
      two_found

installable : Installable (profile first) (blank 524288) first
unfolding find
installable = record {
  up = refl;
  named = refl;
  fresh = refl;
  fits = omega arith;
  imsi = (0x30 ∷ [], refl);
  ki = (0x30 ∷ [], refl);
  opc = (0x30 ∷ [], refl);
}

delete-install_example :
    (e : Euicc) × ((install_profile (profile first) [] (blank 524288) >>= λ r.
    delete_profile first r.0)
      ≡ ok e)
    × (lookup first e.profiles ≡ none)
    × (e.free_nvram + 65536 ≡ 524288)
delete-install_example = delete-install (profile first) [] first (blank 524288) installable
