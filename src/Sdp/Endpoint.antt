-- ===== src/Sdp/Endpoint.antt =====
-- What one phone reads in the session description of another (build_sdp_offer of ims/volte.py,
-- parse_remote_rtp_address of ims/media.py).
use virtual_phone.Prelude.{
  ℕ, ◌≡◌, refl, ap, ◌∙◌, Bool, true, false, ◌||◌, not, Option, none, some, List, [], ◌∷◌, ◌++◌,
  ◌==◌, ==_iff, if◌then◌else◌, arith, All, Bool-cases, inl, inr,
}
use virtual_phone.Sms.Gsm7.{Text}
use virtual_phone.Texts.{
  codes, is_digit, is_blank, is_empty, after, span, search_for, number_from, decimal,
}
use virtual_phone.Texts.Spans.{span-run}
use virtual_phone.Texts.Decimal.{number_from-decimal, decimal-full, decimal-AreDigits}
use virtual_phone.Sdp.{
  line_end, offer_tail, build_sdp_offer, digits_then, word_at, version_then, address_at,
  audio_port_at, parse_remote_rtp_address,
}

-- An address in dotted notation.
abbrev pub is_address_char : ℕ → Bool
is_address_char c = is_digit c || (c == b'.')

abbrev pub AreAddress : Text → Type 0
AreAddress = All (λ c. is_address_char c ≡ true)

-- No character of a text is this one.
unfoldable lacks : ℕ → Text → Bool
lacks letter [] = true
lacks letter (c ∷ text) = let rest = lacks letter text in if letter == c then false else rest

lacks-append :
    (letter : ℕ) (s t : Text)
    → lacks letter s ≡ true
    → lacks letter t ≡ true
    → lacks letter (s ++ t) ≡ true
unfolding lacks
lacks-append letter [] t hs ht = ht
lacks-append letter (c ∷ s) t hs ht = elim (Bool-cases (letter == c)) [
  | inl e ↦ let wrong : false ≡ true = rw e at hs in absurd (cc)
  | inr e ↦ rw e (lacks-append letter s t (rw e at hs) ht)
]

address-lacks :
    (letter : ℕ) (ip : Text)
    → is_address_char letter ≡ false
    → AreAddress ip
    → lacks letter ip ≡ true
unfolding lacks
address-lacks letter [] other h = refl
address-lacks letter (c ∷ ip) other h = elim (Bool-cases (letter == c)) [
  | inl e ↦ absurd (cc (other, h.0, ap is_address_char ((==_iff letter c).0 e)))
  | inr e ↦ rw e (address-lacks letter ip other h.1)
]

-- A search for a pattern that starts with a letter passes over a text without it.
search_for-skip {ℓ} :
    {A : Type ℓ} (matcher : Text → Option A) (letter : ℕ) (s t : Text)
    → ((c : ℕ) (text : Text) → (letter == c) ≡ false → matcher (c ∷ text) ≡ none)
    → lacks letter s ≡ true
    → search_for matcher (s ++ t) ≡ search_for matcher t
unfolding search_for lacks
search_for-skip matcher letter [] t miss h = refl
search_for-skip matcher letter (c ∷ s) t miss h = elim (Bool-cases (letter == c)) [
  | inl e ↦ let wrong : false ≡ true = rw e at h in absurd (cc)
  | inr e ↦ rw (miss c (s ++ t) e) (search_for-skip matcher letter s t miss (rw e at h))
]

address_at-miss : (c : ℕ) (text : Text) → (b'c' == c) ≡ false → address_at (c ∷ text) ≡ none
unfolding address_at after
address_at-miss c text e = rw e refl

audio_port_at-miss : (c : ℕ) (text : Text) → (b'm' == c) ≡ false → audio_port_at (c ∷ text) ≡ none
unfolding audio_port_at after
audio_port_at-miss c text e = rw e refl

address-word : (ip : Text) → AreAddress ip → All (λ c. not (is_blank c) ≡ true) ip
address-word [] h = tt
address-word (c ∷ ip) h = (ground (arith, h.0), address-word ip h.1)

search_for-here {ℓ} :
    {A : Type ℓ} (matcher : Text → Option A) (text : Text) (a : A)
    → matcher text ≡ some a
    → search_for matcher text ≡ some a
unfolding search_for
search_for-here matcher [] a h = h
search_for-here matcher (c ∷ text) a h = rw (h, search_for) refl

word_at-address :
    (ip rest : Text) → AreAddress ip → is_empty ip ≡ false → word_at (ip ++ 13 ∷ rest) ≡ some ip
word_at-address [] rest h full = absurd (cc)
word_at-address (c ∷ ip) rest h full =
    rw (span-run (λ d. not (is_blank d)) (c ∷ ip) rest 13 (address-word (c ∷ ip) h) refl) refl

-- The lines from the connection line on.
abbrev from_connection : Text → ℕ → List Text → Text → Text
from_connection ip port codec_priority direction =
    codes "c=IN IP4 "
    ++ (ip
        ++ (line_end
            ++ (codes "t=0 0"
                ++ (line_end
                    ++ (codes "m=audio "
                        ++ (decimal port ++ offer_tail codec_priority direction))))))

abbrev from_origin : Text → ℕ → List Text → Text → Text
from_origin ip port codec_priority direction =
    ip
    ++ (line_end
        ++ (codes "s=VoLTE Call" ++ (line_end ++ from_connection ip port codec_priority direction)))

address-offer :
    (ip : Text) (port : ℕ) (codec_priority : List Text) (direction : Text)
    → AreAddress ip
    → is_empty ip ≡ false
    → search_for address_at (build_sdp_offer ip port codec_priority direction) ≡ some ip
address-offer ip port cs d h full =
    let origin : search_for address_at (build_sdp_offer ip port cs d)
        ≡ search_for address_at (from_origin ip port cs d) =
      unfold build_sdp_offer search_for address_at after in refl in
    let skipped =
      search_for-skip address_at b'c' ip
        (line_end ++ (codes "s=VoLTE Call" ++ (line_end ++ from_connection ip port cs d)))
        address_at-miss (address-lacks b'c' ip refl h) in
    let lines : search_for address_at
          (line_end ++ (codes "s=VoLTE Call" ++ (line_end ++ from_connection ip port cs d)))
        ≡ search_for address_at (from_connection ip port cs d) =
      unfold search_for address_at after in refl in
    let here : address_at (from_connection ip port cs d) ≡ some ip =
      unfold address_at after version_then in word_at-address ip _ h full in
    origin ∙ skipped ∙ lines ∙ search_for-here address_at (from_connection ip port cs d) ip here

read_digits :
    (text digits rest : Text)
    → is_empty digits ≡ false
    → span is_digit text ≡ (digits, rest)
    → digits_then (λ ds r. some (number_from 0 ds)) text ≡ some (number_from 0 digits)
read_digits text digits rest full run = rw (run, full) refl

-- What is read where the port stands.
port-audio :
    (port : ℕ) (codec_priority : List Text) (direction : Text)
    → audio_port_at (codes "m=audio " ++ (decimal port ++ offer_tail codec_priority direction))
      ≡ some port
unfolding audio_port_at after offer_tail
port-audio port cs d =
    read_digits _ (decimal port) _ (decimal-full port)
      (span-run is_digit (decimal port) _ 32 (decimal-AreDigits port) refl)
    ∙ ap some (number_from-decimal port)

port-offer :
    (ip : Text) (port : ℕ) (codec_priority : List Text) (direction : Text)
    → AreAddress ip
    → search_for audio_port_at (build_sdp_offer ip port codec_priority direction) ≡ some port
port-offer ip port cs d h =
    let connection : Text =
      line_end
      ++ (codes "t=0 0" ++ (line_end ++ (codes "m=audio " ++ (decimal port ++ offer_tail cs d)))) in
    let origin : search_for audio_port_at (build_sdp_offer ip port cs d)
        ≡ search_for audio_port_at (from_origin ip port cs d) =
      unfold build_sdp_offer search_for audio_port_at after in refl in
    let first =
      search_for-skip audio_port_at b'm' ip
        (line_end ++ (codes "s=VoLTE Call" ++ (line_end ++ from_connection ip port cs d)))
        audio_port_at-miss (address-lacks b'm' ip refl h) in
    let lines : search_for audio_port_at
          (line_end ++ (codes "s=VoLTE Call" ++ (line_end ++ from_connection ip port cs d)))
        ≡ search_for audio_port_at (ip ++ connection) =
      unfold search_for audio_port_at after in refl in
    let second =
      search_for-skip audio_port_at b'm' ip connection audio_port_at-miss
        (address-lacks b'm' ip refl h) in
    let last : search_for audio_port_at connection
        ≡ search_for audio_port_at (codes "m=audio " ++ (decimal port ++ offer_tail cs d)) =
      unfold search_for audio_port_at after in refl in
    origin
    ∙ first
    ∙ lines
    ∙ second
    ∙ last
    ∙ search_for-here audio_port_at _ port (port-audio port cs d)

-- The address and the port that parse_remote_rtp_address reads in an offer are those that the offer
-- was built with, for any codecs and direction; the address has digits and dots only, at least one.
pub parse_remote_rtp_address-build_sdp_offer :
    (ip : Text) (port : ℕ) (codec_priority : List Text) (direction : Text)
    → AreAddress ip
    → is_empty ip ≡ false
    → parse_remote_rtp_address (build_sdp_offer ip port codec_priority direction) ≡ (ip, port)
unfolding parse_remote_rtp_address
parse_remote_rtp_address-build_sdp_offer ip port cs d h full =
    rw (address-offer ip port cs d h full, port-offer ip port cs d h) refl
