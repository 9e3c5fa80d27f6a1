-- ===== src/Sms/Ril.antt =====
-- parse_pdu_from_ril and build_pdu_for_ril of ims/sms_pdu.py: hex strings with an SMSC prefix.
pub mod RoundTrip
use virtual_phone.Prelude.{
  ℕ, ◌*◌, ◌+◌, ◌-◌, ◌/◌, ◌%◌, Bool, true, false, ◌&&◌, ◌||◌, List, [], ◌∷◌, ◌++◌, ltb, leb, ◌==◌,
  if◌then◌else◌, length, take, drop, Result, ok, raised, value_error, index_error, ◌>>=◌,
}
use virtual_phone.Bytes.{Bytes, byte}
use virtual_phone.Sms.Gsm7.{Text}

-- A hexadecimal digit, in `.hex().upper()`.
abbrev pub hex_char : ℕ → ℕ
hex_char d = if ltb d 10 then b'0' + d else b'A' + (d - 10)

-- `octets.hex().upper()`
unfoldable pub to_hex : Bytes → Text
to_hex [] = []
to_hex (b ∷ rest) = hex_char (b / 16) ∷ hex_char (b % 16) ∷ to_hex rest

unfoldable pub hex_value : ℕ → Result ℕ
hex_value c =
    if leb b'0' c && leb c b'9'
    then ok (c - b'0')
    else if leb b'A' c && leb c b'F'
    then ok (c - b'A' + 10)
    else if leb b'a' c && leb c b'f'
    then ok (c - b'a' + 10)
    else raised value_error

-- The ASCII whitespace that `bytes.fromhex` skips between two bytes.
unfoldable pub is_space : ℕ → Bool
is_space c = c == 0x20 || (leb 0x09 c && leb c 0x0d)

-- `bytes.fromhex(s)`
unfoldable pub from_hex : Text → Result Bytes
unfolding hex_value is_space
from_hex [] = ok []
from_hex (c ∷ []) = if is_space c then ok [] else raised value_error
from_hex (c ∷ d ∷ rest) =
    let after_space = from_hex (d ∷ rest) in
    let after_byte = from_hex rest in
    if is_space c
    then after_space
    else hex_value c >>= λ high.
        hex_value d >>= λ low. after_byte >>= λ octets. ok ((high * 16 + low) ∷ octets)

-- Splits the raw bytes by the SMSC length in front.
unfoldable pub split_smsc : Bytes → Result (Bytes × Bytes)
split_smsc [] = raised index_error
split_smsc (smsc_len ∷ rest) = ok (take smsc_len rest, drop smsc_len rest)

unfoldable pub parse_pdu_from_ril : Text → Result (Bytes × Bytes)
unfolding from_hex split_smsc
parse_pdu_from_ril hex_pdu = do raw ← from_hex hex_pdu; split_smsc raw

unfoldable pub build_pdu_for_ril : Bytes → Bytes → Result Text
unfolding to_hex
build_pdu_for_ril tpdu [] = ok (to_hex (0 ∷ tpdu))
build_pdu_for_ril tpdu (b ∷ smsc) = do
  len ← byte (length (b ∷ smsc))
  ok (to_hex (len ++ ((b ∷ smsc) ++ tpdu)))
