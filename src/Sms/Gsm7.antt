-- ===== src/Sms/Gsm7.antt =====
-- The GSM 7-bit alphabet and its packing (ims/sms_pdu.py: GSM7_BASIC, encode_gsm7, decode_gsm7).
-- A text is the list of its code points.
pub mod Packing
pub mod RoundTrip
use virtual_phone.Prelude.{
  ℕ, zero, suc, ◌*◌, ◌+◌, ◌-◌, ◌/◌, ◌%◌, ◌^◌, ◌<◌, ◌≡◌, Bool, true, false, Option, none, some, List,
  [], ◌∷◌, ◌++◌, ltb, leb, ◌==◌, if◌then◌else◌, length, get_elem?, map,
}
use virtual_phone.Bytes.{Bytes}

abbrev pub Text : Type 0
Text = List ℕ

-- GSM7_BASIC, by code points.
abbrev pub gsm7_basic : Text
gsm7_basic =
    0x40 ∷ 0xa3 ∷ 0x24 ∷ 0xa5 ∷ 0xe8 ∷ 0xe9 ∷ 0xf9 ∷ 0xec ∷ 0xf2 ∷ 0xc7 ∷ 0x0a ∷ 0xd8 ∷ 0xf8 ∷ 0x0d
    ∷ 0xc5 ∷ 0xe5 ∷ 0x394 ∷ 0x5f ∷ 0x3a6 ∷ 0x393 ∷ 0x39b ∷ 0x3a9 ∷ 0x3a0 ∷ 0x3a8 ∷ 0x3a3 ∷ 0x398
    ∷ 0x39e ∷ 0x1b ∷ 0xc6 ∷ 0xe6 ∷ 0xdf ∷ 0xc9 ∷ 0x20 ∷ 0x21 ∷ 0x22 ∷ 0x23 ∷ 0xa4 ∷ 0x25 ∷ 0x26
    ∷ 0x27 ∷ 0x28 ∷ 0x29 ∷ 0x2a ∷ 0x2b ∷ 0x2c ∷ 0x2d ∷ 0x2e ∷ 0x2f ∷ 0x30 ∷ 0x31 ∷ 0x32 ∷ 0x33
    ∷ 0x34 ∷ 0x35 ∷ 0x36 ∷ 0x37 ∷ 0x38 ∷ 0x39 ∷ 0x3a ∷ 0x3b ∷ 0x3c ∷ 0x3d ∷ 0x3e ∷ 0x3f ∷ 0xa1
    ∷ 0x41 ∷ 0x42 ∷ 0x43 ∷ 0x44 ∷ 0x45 ∷ 0x46 ∷ 0x47 ∷ 0x48 ∷ 0x49 ∷ 0x4a ∷ 0x4b ∷ 0x4c ∷ 0x4d
    ∷ 0x4e ∷ 0x4f ∷ 0x50 ∷ 0x51 ∷ 0x52 ∷ 0x53 ∷ 0x54 ∷ 0x55 ∷ 0x56 ∷ 0x57 ∷ 0x58 ∷ 0x59 ∷ 0x5a
    ∷ 0xc4 ∷ 0xd6 ∷ 0xd1 ∷ 0xdc ∷ 0xc0 ∷ 0xbf ∷ 0x61 ∷ 0x62 ∷ 0x63 ∷ 0x64 ∷ 0x65 ∷ 0x66 ∷ 0x67
    ∷ 0x68 ∷ 0x69 ∷ 0x6a ∷ 0x6b ∷ 0x6c ∷ 0x6d ∷ 0x6e ∷ 0x6f ∷ 0x70 ∷ 0x71 ∷ 0x72 ∷ 0x73 ∷ 0x74
    ∷ 0x75 ∷ 0x76 ∷ 0x77 ∷ 0x78 ∷ 0x79 ∷ 0x7a ∷ 0xe4 ∷ 0xf6 ∷ 0xf1 ∷ 0xfc ∷ 0xe0 ∷ []

-- The place of a character in a table, counted from `i`.
unfoldable pub index_from : ℕ → ℕ → Text → Option ℕ
index_from i c [] = none
index_from i c (d ∷ rest) = if d == c then some i else index_from (suc i) c rest

-- GSM7_ENCODE.get(ch): no character of the table stands in it twice, and ESC is left out.
unfoldable pub gsm7_encode : ℕ → Option ℕ
unfolding index_from
gsm7_encode c = if c == 0x1b then none else index_from 0 c gsm7_basic

-- The code of `?`, for what cannot be encoded.
abbrev pub septet_or_mark : Option ℕ → ℕ
septet_or_mark (some code) = code
septet_or_mark none = 0x3f

unfoldable pub septets_of : Text → List ℕ
unfolding gsm7_encode
septets_of [] = []
septets_of (ch ∷ rest) = septet_or_mark (gsm7_encode ch) ∷ septets_of rest

-- `while bit_count >= 8`: the octets that it appends, with `bits` and `bit_count` as it leaves
-- them. `bit_count` is at most 14 at the start, so the fuel of 2 that the caller gives is enough.
unfoldable pub drain : ℕ → ℕ → ℕ → Bytes × ℕ × ℕ
drain zero bits bit_count = ([], bits, bit_count)
drain (suc fuel) bits bit_count =
    let rest = drain fuel (bits / 256) (bit_count - 8) in
    if leb 8 bit_count then (bits % 256 ∷ rest.0, rest.1, rest.2) else ([], bits, bit_count)

-- The packing loop from `bits` and `bit_count` on: the octets that it appends. `bits` is below
-- 2 ^ bit_count, so that `bits |= septet << bit_count` adds.
unfoldable pub pack_septets : List ℕ → ℕ → ℕ → Bytes
unfolding drain
pack_septets [] bits bit_count = if ltb 0 bit_count then bits % 256 ∷ [] else []
pack_septets (septet ∷ rest) bits bit_count =
    let (octets, bits', bit_count') =
      drain 2 (bits + septet % 128 * 2 ^ bit_count) (bit_count + 7) in
    octets ++ pack_septets rest bits' bit_count'

unfoldable pub encode_gsm7 : Text → Bytes
unfolding septets_of pack_septets
encode_gsm7 text = pack_septets (septets_of text) 0 0

-- `bits |= b << bit_count; bit_count += 8` over the data; the bytes do not overlap.
unfoldable pub gather_bits : Bytes → ℕ → ℕ → ℕ
gather_bits [] bits bit_count = bits
gather_bits (b ∷ rest) bits bit_count = gather_bits rest (bits + b * 2 ^ bit_count) (bit_count + 8)

abbrev pub char_or_mark : Option ℕ → ℕ
char_or_mark (some c) = c
char_or_mark none = 0x3f

-- GSM7_BASIC[septet] if `septet < len(GSM7_BASIC)`, else "?".
unfoldable pub gsm7_char : ℕ → ℕ
gsm7_char septet = char_or_mark (get_elem? gsm7_basic septet)

-- The loop over `range(num_septets)`, from `i` on, with `count` rounds left.
unfoldable pub unpack_septets : ℕ → ℕ → ℕ → Text
unfolding gsm7_char
unpack_septets zero i bits = []
unpack_septets (suc count) i bits =
    gsm7_char (bits / 2 ^ (i * 7) % 128) ∷ unpack_septets count (suc i) bits

unfoldable pub decode_gsm7 : Bytes → ℕ → Text
unfolding gather_bits unpack_septets
decode_gsm7 octets num_septets = unpack_septets num_septets 0 (gather_bits octets 0 0)
