-- ===== src/Examples/Rules.antt =====
-- Call forwarding at concrete rules.
use virtual_phone.Prelude.{◌≡◌, refl, none, some, [], ◌∷◌, find, store}
use virtual_phone.Forwarding.{
  unconditional, busy, no_reply, all_conditional, Rules, set_rule, should_forward,
}
use virtual_phone.Forwarding.Refinement.{erase, run, view, view-run}

abbrev both : Rules
both = set_rule no_reply (0x32 ∷ []) 20 (set_rule unconditional (0x31 ∷ []) 20 [])

view-run_example : view (run (erase all_conditional) both) no_reply ≡ none
view-run_example = view-run (erase all_conditional) both no_reply

forwarded : should_forward busy both ≡ some (0x31 ∷ [])
unfolding should_forward set_rule find store
forwarded = refl
