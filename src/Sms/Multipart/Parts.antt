-- ===== src/Sms/Multipart/Parts.antt =====
-- What split_multipart (ims/sms_pdu.py) makes of a long GSM 7-bit text.
use virtual_phone.Prelude.{
  ℕ, suc, ◌+◌, ◌-◌, ◌/◌, ◌%◌, ◌<◌, ◌≤◌, ◌≡◌, refl, ap, ◌∙◌, sym, true, List, [], ◌∷◌, ◌++◌, map,
  length, drop, arith, All, ok, some, subst, length-map, lt→leb_false,
}
use virtual_phone.Sms.Gsm7.{Text, encode_gsm7}
use virtual_phone.Sms.Gsm7.RoundTrip.{length-encode_gsm7}
use virtual_phone.Sms.Tpdu.UserData.{gsm_7bit}
use virtual_phone.Sms.Tpdu.Submit.{SmsSubmit, create_submit}
use virtual_phone.Sms.Header.{next_concat_ref, encode_udh_concat, decode_udh_concat}
use virtual_phone.Sms.Header.Elements.{decode_udh_concat-encode}
use virtual_phone.Sms.Multipart.{chunks, make_parts, split_multipart}
use virtual_phone.Sms.Multipart.Split.{concat, concat-chunks, chunks_bound, length-chunks_gsm}

-- The parts that carry the given texts, numbered from `i`.
module _ (dest : Text) (msg_ref concat_ref total : ℕ) where
  gsm_parts : ℕ → List Text → List SmsSubmit
  gsm_parts i [] = []
  gsm_parts i (t ∷ rest) =
      record (create_submit dest t gsm_7bit ((msg_ref + i - 1) % 256)) {
        user_data_header = true;
        user_data = encode_udh_concat concat_ref total i ++ encode_gsm7 t;
      }
      ∷ gsm_parts (suc i) rest

  make_parts-eq-gsm :
      (i : ℕ) (ts : List Text)
      → make_parts dest gsm_7bit msg_ref concat_ref total i ts ≡ ok (gsm_parts i ts)
  unfolding make_parts gsm_parts
  make_parts-eq-gsm i [] = refl
  make_parts-eq-gsm i (t ∷ rest) = rw (make_parts-eq-gsm (suc i) rest)

  map-text-gsm_parts : (i : ℕ) (ts : List Text) → map (λ m. m.text) (gsm_parts i ts) ≡ ts
  unfolding gsm_parts create_submit
  map-text-gsm_parts i [] = refl
  map-text-gsm_parts i (t ∷ rest) = ap (λ us. t ∷ us) (map-text-gsm_parts (suc i) rest)

-- A part as the code makes it: its header of six octets names the message, the total and its own
-- number, each modulo 256, and the text as encode_gsm7 packs it follows at once, with no fill bit
-- between them; it holds at most 153 characters, and its user data fit the 140 octets of a message.
pub record IsPart (concat_ref total i : ℕ) (m : SmsSubmit) : Type 0 where
  pub names : decode_udh_concat m.user_data ≡ some (concat_ref % 256, total % 256, i % 256)
  pub carries : drop 6 m.user_data ≡ encode_gsm7 m.text
  pub flagged : m.user_data_header ≡ true
  pub short : length m.text ≤ 153
  pub fits : length m.user_data ≤ 140

abbrev pub AreParts : ℕ → ℕ → ℕ → List SmsSubmit → Type 0
AreParts concat_ref total i [] = Unit
AreParts concat_ref total i (m ∷ rest) =
    IsPart concat_ref total i m × AreParts concat_ref total (suc i) rest

part_size :
    (concat_ref total i : ℕ) (t : Text)
    → length t ≤ 153
    → length (encode_udh_concat concat_ref total i ++ encode_gsm7 t) ≤ 140
unfolding encode_udh_concat
part_size concat_ref total i t h = omega (arith, length-encode_gsm7 t)

carried :
    (concat_ref total i : ℕ) (t : Text)
    → drop 6 (encode_udh_concat concat_ref total i ++ encode_gsm7 t) ≡ encode_gsm7 t
unfolding encode_udh_concat
carried concat_ref total i t = refl

gsm_parts-AreParts :
    (dest : Text) (msg_ref concat_ref total i : ℕ) (ts : List Text)
    → All (λ t. (0 < length t) × (length t ≤ 153)) ts
    → AreParts concat_ref total i (gsm_parts dest msg_ref concat_ref total i ts)
unfolding gsm_parts create_submit
gsm_parts-AreParts dest msg_ref concat_ref total i [] h = tt
gsm_parts-AreParts dest msg_ref concat_ref total i (t ∷ rest) h = (
  record {
    names = decode_udh_concat-encode concat_ref total i (encode_gsm7 t);
    carries = carried concat_ref total i t;
    flagged = refl;
    short = h.0.1;
    fits = part_size concat_ref total i t h.0.1;
  },
  gsm_parts-AreParts dest msg_ref concat_ref total (suc i) rest h.1,
)

-- A GSM 7-bit text of more than 160 characters is cut into ⌈n/153⌉ parts whose texts, joined in
-- order, are the text; the user data of each part are its header, which names the message's
-- reference, the total and the part's number, each modulo 256, and then its packed text; each part is
-- flagged, and fits; and the reference counter moves on by one, modulo 256.
pub split_multipart_gsm :
    (dest text : Text) (msg_ref counter : ℕ)
    → 160 < length text
    → (ms : List SmsSubmit) × (split_multipart dest text gsm_7bit msg_ref counter
        ≡ ok (ms, (counter + 1) % 256))
      × (concat (map (λ m. m.text) ms) ≡ text)
      × (length ms ≡ (length text + 152) / 153)
      × AreParts counter (length ms) 1 ms
unfolding split_multipart next_concat_ref
split_multipart_gsm dest text msg_ref counter long =
    let ts : List Text = chunks (length text) 153 text in
    let ms : List SmsSubmit = gsm_parts dest msg_ref counter (length ts) 1 ts in
    let texts : map (λ m. m.text) ms ≡ ts =
      map-text-gsm_parts dest msg_ref counter (length ts) 1 ts in
    let count : length ms ≡ length ts = sym (length-map ms (λ m. m.text)) ∙ ap length texts in
    (
      ms,
      rw (
        lt→leb_false (length text) 160 long,
        make_parts-eq-gsm dest msg_ref counter (length ts) 1 ts,
      ),
      ap concat texts ∙ concat-chunks (length text) 153 text (omega arith) (omega arith),
      count ∙ length-chunks_gsm (length text) text (omega arith),
      subst (λ n. AreParts counter n 1 ms) (sym count)
          (gsm_parts-AreParts dest msg_ref counter (length ts) 1 ts
            (chunks_bound (length text) 153 text (omega arith))),
    )
