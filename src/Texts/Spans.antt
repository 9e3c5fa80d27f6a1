-- ===== src/Texts/Spans.antt =====
-- Runs of characters that pass a test.
use virtual_phone.Prelude.{ℕ, ◌≡◌, refl, Bool, true, false, [], ◌∷◌, ◌++◌, All}
use virtual_phone.Sms.Gsm7.{Text}
use virtual_phone.Texts.{span}

-- A run of characters that pass a test, and a first one that does not.
pub span-run :
    (test : ℕ → Bool) (s t : Text) (c : ℕ)
    → All (λ d. test d ≡ true) s
    → test c ≡ false
    → span test (s ++ c ∷ t) ≡ (s, c ∷ t)
unfolding span
span-run test [] t c h stop = rw stop refl
span-run test (d ∷ s) t c h stop = rw (h.0, span-run test s t c h.1 stop) refl

pub span-All : (test : ℕ → Bool) (s : Text) → All (λ d. test d ≡ true) s → span test s ≡ (s, [])
unfolding span
span-All test [] h = refl
span-All test (d ∷ s) h = rw (h.0, span-All test s h.1) refl
