-- ===== src/Sms/Relay/RoundTrip.antt =====
-- RPData.from_bytes after RPData.to_bytes (ims/sms_pdu.py).
use virtual_phone.Prelude.{
  ◌%◌, ◌<◌, ◌≡◌, refl, Bool, ◌&&◌, [], ◌∷◌, ◌++◌, ltb, if◌then◌else◌, length, Result, ok, raised,
  value_error, ◌>>=◌, arith, lt→ltb, Bool-cases, inl, inr, take-append, drop-append, take_all,
}
use virtual_phone.Bytes.{Bytes, byte}
use virtual_phone.Sms.Relay.{
  RpMessageType, RpData, rp_code, rp_of_code, address_field, rp_to_bytes, rp_from_bytes,
}

rp_of_code-code : (t : RpMessageType) → rp_of_code (rp_code t) ≡ ok t
unfolding rp_of_code rp_code
rp_of_code-code t = ground arith

rp_code-lt : (t : RpMessageType) → rp_code t < 256
unfolding rp_code
rp_code-lt t = ground arith

-- A field with its length in front, if the length fits a byte.
abbrev framed : Bytes → Result Bytes
framed xs = if ltb (length xs) 256 then ok (length xs ∷ xs) else raised value_error

address_field-eq-framed : (xs : Bytes) → address_field xs ≡ framed xs
address_field-eq-framed [] = refl
address_field-eq-framed (x ∷ xs) = elim (Bool-cases (ltb (length (x ∷ xs)) 256)) [
  | inl fits ↦ rw fits
  | inr long ↦ rw long
]

abbrev fits_bytes : RpData → Bool
fits_bytes r =
    ltb (length r.originator) 256 && (ltb (length r.destination) 256 && ltb (length r.tpdu) 256)

rp_parse :
    (r : RpData)
    → rp_from_bytes (
        rp_code r.msg_type
        ∷ r.reference % 256
        ∷ ((length r.originator ∷ r.originator)
            ++ ((length r.destination ∷ r.destination) ++ (length r.tpdu ∷ r.tpdu))))
      ≡ ok (record r { reference = r.reference % 256 })
unfolding rp_from_bytes
rp_parse r =
    let fields : Bytes = (length r.destination ∷ r.destination) ++ (length r.tpdu ∷ r.tpdu) in
    rw (
      rp_of_code-code r.msg_type,
      take-append r.originator fields,
      drop-append r.originator fields,
      take-append r.destination (length r.tpdu ∷ r.tpdu),
      drop-append r.destination (length r.tpdu ∷ r.tpdu),
      take_all (length r.tpdu) r.tpdu (omega arith),
    )

module _ (r : RpData) where
  to_bytes-eq-framed : rp_to_bytes r ≡ (
      framed r.originator >>= λ originator. framed r.destination >>= λ destination.
      byte (length r.tpdu) >>= λ len.
      ok
        (rp_code r.msg_type ∷ r.reference % 256 ∷ (originator ++ (destination ++ (len ++ r.tpdu)))))
  unfolding rp_to_bytes
  to_bytes-eq-framed = rw (
    lt→ltb (rp_code r.msg_type) 256 (rp_code-lt r.msg_type),
    lt→ltb (r.reference % 256) 256 (omega arith),
    address_field-eq-framed r.originator,
    address_field-eq-framed r.destination,
  )

-- Where both addresses and the TPDU have at most 255 bytes, an RP message is written, and parsing
-- gives it back with its reference cut to 8 bits; where any of the three is longer, writing
-- raises ValueError.
pub rp_from_bytes-to_bytes :
    (r : RpData)
    → (rp_to_bytes r >>= rp_from_bytes) ≡ (
        if fits_bytes r
        then ok (record r { reference = r.reference % 256 })
        else raised value_error)
rp_from_bytes-to_bytes r =
    rw (to_bytes-eq-framed r) (elim (Bool-cases (ltb (length r.originator) 256)) [
      | inr long ↦ rw long
      | inl o ↦ elim (Bool-cases (ltb (length r.destination) 256)) [
        | inr long ↦ rw (o, long)
        | inl d ↦ elim (Bool-cases (ltb (length r.tpdu) 256)) [
          | inr long ↦ rw (o, d, long)
          | inl t ↦ rw (o, d, t) (rp_parse r)
        ]
      ]
    ])
