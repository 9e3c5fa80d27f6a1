-- ===== src/Sdp.antt =====
-- Session descriptions: build_sdp_offer and the extraction of codecs and numbers in ims/volte.py,
-- and the parsers of ims/media.py.
pub mod Endpoint
use virtual_phone.Prelude.{
  ℕ, ◌+◌, Bool, true, false, ◌||◌, not, Option, none, some, List, [], ◌∷◌, ◌++◌, ◌==◌,
  if◌then◌else◌, find, text_key,
}
use virtual_phone.Sms.Gsm7.{Text}
use virtual_phone.Texts.{
  codes, is_digit, is_blank, is_empty, after, span, search_for, number_from, decimal,
}

abbrev pub line_end : Text
line_end = 13 ∷ 10 ∷ []

-- The payload type and the name of a codec.
abbrev pub codec_map : List (Text × (ℕ × Text))
codec_map =
    (codes "AMR-WB", (96, codes "AMR-WB/16000/1"))
    ∷ (codes "AMR-NB", (97, codes "AMR/8000/1"))
    ∷ (codes "EVS", (98, codes "EVS/16000/1"))
    ∷ (codes "telephone-event", (101, codes "telephone-event/8000"))
    ∷ []

-- The codecs offered: those of the list that are known, and then the tones.
unfoldable pub offered : List Text → List (ℕ × Text)
offered [] = (101, codes "telephone-event/8000") ∷ []
offered (codec ∷ rest) =
    let others = offered rest in
    elim (find text_key codec codec_map) [ none ↦ others | some entry ↦ entry ∷ others ]

unfoldable pub joined : Text → List Text → Text
joined separator [] = []
joined separator (t ∷ []) = t
joined separator (t ∷ u ∷ ts) = t ++ (separator ++ joined separator (u ∷ ts))

unfoldable pub type_list : List (ℕ × Text) → List Text
type_list [] = []
type_list ((pt, name) ∷ rest) = decimal pt ∷ type_list rest

unfoldable pub rtpmap_lines : List (ℕ × Text) → List Text
rtpmap_lines [] = []
rtpmap_lines ((pt, name) ∷ rest) =
    (codes "a=rtpmap:" ++ (decimal pt ++ (32 ∷ name))) ∷ rtpmap_lines rest

-- What follows the port of the `m=audio` line.
unfoldable pub offer_tail : List Text → Text → Text
unfolding offered joined type_list rtpmap_lines
offer_tail codec_priority direction =
    let entries = offered codec_priority in
    codes " RTP/AVP "
    ++ (joined (32 ∷ []) (type_list entries)
        ++ (line_end
            ++ (joined line_end (rtpmap_lines entries)
                ++ (line_end
                    ++ (codes "a=ptime:20"
                        ++ (line_end
                            ++ (codes "a=maxptime:240"
                                ++ (line_end ++ (codes "a=" ++ (direction ++ line_end))))))))))

-- build_sdp_offer
unfoldable pub build_sdp_offer : Text → ℕ → List Text → Text → Text
unfolding offer_tail
build_sdp_offer local_ip local_port codec_priority direction =
    codes "v=0"
    ++ (line_end
        ++ (codes "o=VirtualPhone 1 1 IN IP4 "
            ++ (local_ip
                ++ (line_end
                    ++ (codes "s=VoLTE Call"
                        ++ (line_end
                            ++ (codes "c=IN IP4 "
                                ++ (local_ip
                                    ++ (line_end
                                        ++ (codes "t=0 0"
                                            ++ (line_end
                                                ++ (codes "m=audio "
                                                    ++ (decimal local_port
                                                        ++ offer_tail codec_priority
                                                            direction)))))))))))))

abbrev pub non_empty : Text → Option Text
non_empty [] = none
non_empty (c ∷ text) = some (c ∷ text)

-- `\d+` and then what a rest must be.
abbrev pub digits_then {ℓ} : {A : Type ℓ} → (Text → Text → Option A) → Text → Option A
digits_then next text =
    let (digits, rest) = span is_digit text in if is_empty digits then none else next digits rest

abbrev pub bind {ℓ κ} : {A : Type ℓ} {B : Type κ} → Option A → (A → Option B) → Option B
bind none f = none
bind (some a) f = f a

abbrev pub word_at : Text → Option Text
word_at text = non_empty (span (λ c. not (is_blank c)) text).0

-- `a=rtpmap:\d+ (\S+)` at one place.
unfoldable pub rtpmap_at : Text → Option Text
rtpmap_at text =
    bind (after (codes "a=rtpmap:") text)
      (digits_then (λ digits rest. bind (after (32 ∷ []) rest) word_at))

-- _extract_codec_from_sdp
unfoldable pub extract_codec_from_sdp : Text → Text
unfolding rtpmap_at
extract_codec_from_sdp sdp = elim (search_for rtpmap_at sdp) [
  | none ↦ codes "unknown"
  | some name ↦ (span (λ c. not (c == b'/')) name).0
]

abbrev pub is_number_char : ℕ → Bool
is_number_char c = (c == b'+') || is_digit c

-- `sip:([+\d]+)@` at one place.
unfoldable pub sip_number_at : Text → Option Text
sip_number_at text = bind (after (codes "sip:") text) (λ rest.
    let (number, stop) = span is_number_char rest in
    bind (after (codes "@") stop) (λ _. non_empty number))

-- `tel:([+\d]+)` at one place.
unfoldable pub tel_number_at : Text → Option Text
tel_number_at text =
    bind (after (codes "tel:") text) (λ rest. non_empty (span is_number_char rest).0)

-- _extract_number_from_uri
unfoldable pub extract_number_from_uri : Text → Text
unfolding sip_number_at tel_number_at
extract_number_from_uri uri = elim (search_for sip_number_at uri) [
  | some number ↦ number
  | none ↦ elim (search_for tel_number_at uri) [ some number ↦ number | none ↦ uri ]
]

-- What follows `c=IN IP`.
unfoldable pub version_then : Text → Option Text
version_then [] = none
version_then (v ∷ rest) =
    if (v == b'4') || (v == b'6') then bind (after (32 ∷ []) rest) word_at else none

-- `c=IN IP[46] (\S+)` at one place.
unfoldable pub address_at : Text → Option Text
unfolding version_then
address_at text = bind (after (codes "c=IN IP") text) version_then

-- `m=audio (\d+)` at one place.
unfoldable pub audio_port_at : Text → Option ℕ
audio_port_at text =
    bind (after (codes "m=audio ") text) (digits_then (λ digits rest. some (number_from 0 digits)))

abbrev pub or_else {ℓ} : {A : Type ℓ} → Option A → A → A
or_else none d = d
or_else (some a) d = a

-- parse_remote_rtp_address
unfoldable pub parse_remote_rtp_address : Text → Text × ℕ
unfolding address_at audio_port_at
parse_remote_rtp_address sdp = (
  or_else (search_for address_at sdp) (codes "0.0.0.0"),
  or_else (search_for audio_port_at sdp) 0,
)
