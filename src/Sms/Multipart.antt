-- ===== src/Sms/Multipart.antt =====
-- split_multipart and reassemble_multipart of ims/sms_pdu.py. The module's counter of references
-- is passed in and out.
pub mod Split
pub mod Parts
pub mod Lost
pub mod Reorder
use virtual_phone.Prelude.{
  ℕ, zero, suc, ◌*◌, ◌+◌, ◌-◌, ◌%◌, Bool, true, false, Option, none, some, List, [], ◌∷◌, ◌++◌, ltb,
  leb, ◌==◌, not, if◌then◌else◌, length, take, drop, Result, ok, ◌>>=◌,
}
use virtual_phone.Bytes.{Bytes}
use virtual_phone.Sms.Gsm7.{Text, encode_gsm7}
use virtual_phone.Sms.Utf16.{encode_utf16}
use virtual_phone.Sms.Address.{international_address}
use virtual_phone.Sms.Tpdu.UserData.{DataCodingScheme, gsm_7bit, ucs2, eight_bit}
use virtual_phone.Sms.Tpdu.Submit.{SmsSubmit, create_submit}
use virtual_phone.Sms.Header.{next_concat_ref, encode_udh_concat}

abbrev pub gsm7_single_limit : ℕ
gsm7_single_limit = 160

abbrev pub gsm7_concat_limit : ℕ
gsm7_concat_limit = 153

abbrev pub ucs2_single_limit : ℕ
ucs2_single_limit = 70

abbrev pub ucs2_concat_limit : ℕ
ucs2_concat_limit = 67

abbrev pub single_limit : DataCodingScheme → ℕ
single_limit ucs2 = ucs2_single_limit
single_limit _ = gsm7_single_limit

abbrev pub concat_limit : DataCodingScheme → ℕ
concat_limit ucs2 = ucs2_concat_limit
concat_limit _ = gsm7_concat_limit

-- `while remaining:`. Each round takes a character at least, so a fuel of the text's length is
-- enough.
unfoldable pub chunks : ℕ → ℕ → Text → List Text
chunks fuel limit [] = []
chunks zero limit (c ∷ rest) = []
chunks (suc fuel) limit (c ∷ rest) =
    take limit (c ∷ rest) ∷ chunks fuel limit (drop limit (c ∷ rest))

-- The text of a part, coded for the user data.
unfoldable pub encode_part : DataCodingScheme → Text → Result Bytes
encode_part ucs2 text = encode_utf16 text
encode_part _ text = ok (encode_gsm7 text)

-- The body of the loop over the parts, for part number `i`.
unfoldable pub make_part : Text → DataCodingScheme → ℕ → ℕ → ℕ → ℕ → Text → Result SmsSubmit
unfolding encode_part
make_part dest_number dcs msg_ref concat_ref total i part_text = do
  encoded ← encode_part dcs part_text
  let m = create_submit dest_number part_text dcs ((msg_ref + i - 1) % 256)
  ok (record m {
    user_data_header = true;
    user_data = encode_udh_concat concat_ref total i ++ encoded;
  })

unfoldable pub make_parts :
    Text → DataCodingScheme → ℕ → ℕ → ℕ → ℕ → List Text → Result (List SmsSubmit)
unfolding make_part
make_parts dest_number dcs msg_ref concat_ref total i [] = ok []
make_parts dest_number dcs msg_ref concat_ref total i (part_text ∷ rest) = do
  m ← make_part dest_number dcs msg_ref concat_ref total i part_text
  ms ← make_parts dest_number dcs msg_ref concat_ref total (suc i) rest
  ok (m ∷ ms)

-- split_multipart, with the reference counter before and after.
unfoldable pub split_multipart :
    Text → Text → DataCodingScheme → ℕ → ℕ → Result (List SmsSubmit × ℕ)
unfolding chunks make_parts
split_multipart dest_number text dcs msg_ref counter =
    let parts_text = chunks (length text) (concat_limit dcs) text in
    let (concat_ref, counter') = next_concat_ref counter in
    if leb (length text) (single_limit dcs)
    then ok (create_submit dest_number text dcs msg_ref ∷ [], counter)
    else make_parts dest_number dcs msg_ref concat_ref (length parts_text) 1 parts_text >>= λ ms.
        ok (ms, counter')

-- A received part: its number, the total that it names, its text.
pub record Part : Type 0 where
  pub number : ℕ
  pub total : ℕ
  pub content : Text

-- `sorted(parts, key=...)`: stable, by insertion from the right.
unfoldable pub insert_part : Part → List Part → List Part
insert_part p [] = p ∷ []
insert_part p (q ∷ rest) =
    let later = insert_part p rest in if leb p.number q.number then p ∷ q ∷ rest else q ∷ later

unfoldable pub sort_parts : List Part → List Part
unfolding insert_part
sort_parts [] = []
sort_parts (p ∷ rest) = insert_part p (sort_parts rest)

-- The part numbers are i, i + 1, ...
unfoldable pub numbered_from : ℕ → List Part → Bool
numbered_from i [] = true
numbered_from i (p ∷ rest) =
    let others = numbered_from (suc i) rest in if p.number == i then others else false

unfoldable pub join_parts : List Part → Text
join_parts [] = []
join_parts (p ∷ rest) = p.content ++ join_parts rest

abbrev pub join_checked : List Part → Option Text
join_checked [] = none
join_checked (p ∷ rest) =
    if length (p ∷ rest) == p.total
    then (if numbered_from 1 (p ∷ rest) then some (join_parts (p ∷ rest)) else none)
    else none

unfoldable pub reassemble_multipart : List Part → Option Text
unfolding sort_parts numbered_from join_parts
reassemble_multipart parts = join_checked (sort_parts parts)
