-- ===== src/Sms/Header.antt =====
-- The user data header of a concatenated message (ims/sms_pdu.py: _next_concat_ref,
-- encode_udh_concat, decode_udh_concat).
pub mod Elements
use virtual_phone.Prelude.{
  ℕ, zero, suc, ◌*◌, ◌+◌, ◌-◌, ◌%◌, Bool, true, false, ◌&&◌, Option, none, some, List, [], ◌∷◌, ltb,
  leb, ◌==◌, if◌then◌else◌, length, drop, get_or,
}
use virtual_phone.Bytes.{Bytes}

-- _next_concat_ref: the reference to use and the counter after it.
unfoldable pub next_concat_ref : ℕ → ℕ × ℕ
next_concat_ref counter = (counter, (counter + 1) % 256)

unfoldable pub encode_udh_concat : ℕ → ℕ → ℕ → Bytes
encode_udh_concat ref total_parts part_num =
    0x05 ∷ 0x00 ∷ 0x03 ∷ ref % 256 ∷ total_parts % 256 ∷ part_num % 256 ∷ []

-- The loop over the information elements. The list is `udh[offset:]`, and `left` is what
-- `1 + udhl - offset` still counts. Each round takes two bytes at least, so a fuel of `left` is
-- enough.
unfoldable pub find_concat : ℕ → ℕ → Bytes → Option (ℕ × ℕ × ℕ)
find_concat zero left rest = none
find_concat (suc fuel) left (iei ∷ ie_len ∷ body) =
    let next = find_concat fuel (left - (2 + ie_len)) (drop ie_len body) in
    if left == 0
    then none
    else if ltb (length body) ie_len
    then none
    else if iei == 0x00 && ie_len == 3
    then some (get_or body 0 0, get_or body 1 0, get_or body 2 0)
    else if iei == 0x08 && ie_len == 4
    then some (get_or body 0 0 * 256 + get_or body 1 0, get_or body 2 0, get_or body 3 0)
    else next
find_concat (suc fuel) left _ = none

unfoldable pub decode_udh_concat : Bytes → Option (ℕ × ℕ × ℕ)
unfolding find_concat
decode_udh_concat [] = none
decode_udh_concat (udhl ∷ rest) =
    if ltb (length rest) udhl then none else find_concat udhl udhl rest
