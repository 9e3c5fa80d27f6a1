-- ===== src/Codec/Events.antt =====
-- DTMF events through an RTP payload, and their digits (ims/codec.py).
use virtual_phone.Prelude.{
  ℕ, ◌+◌, ◌%◌, ◌^◌, ◌<◌, ◌≡◌, refl, Bool, true, arith, ok, raised, struct_error, ◌>>=◌, lt→ltb,
  Bool-cases, inl, inr, ap, ==_iff, all_below, all_below_sound, ltb, if◌then◌else◌, ◌==◌,
}
use virtual_phone.Bytes.{bit_at, weigh}
use virtual_phone.Bytes.Words.{u16_of-pack}
use virtual_phone.Codec.{
  DtmfEvent, table_get, dtmf_events, upper, key_of, event_to_payload, event_from_payload,
  event_from_digit, event_digit,
}

flags-lt : (end : Bool) (volume : ℕ) → weigh end 128 + volume % 64 < 256
flags-lt end volume = ground arith

flags_end : (end : Bool) (volume : ℕ) → bit_at 128 (weigh end 128 + volume % 64) ≡ end
flags_end end volume = ground arith

flags_volume : (end : Bool) (volume : ℕ) → (weigh end 128 + volume % 64) % 64 ≡ volume % 64
flags_volume end volume = ground arith

-- An event whose duration fits 16 bits packs, and unpacking gives it back with the event code cut
-- to 8 bits and the volume to 6; with a longer duration packing raises struct.error.
pub event_from_payload-to_payload :
    (e : DtmfEvent)
    → (event_to_payload e >>= event_from_payload) ≡ (
        if ltb e.duration (2 ^ 16)
        then ok (record e { event = e.event % 256; volume = e.volume % 64 })
        else raised struct_error)
unfolding event_to_payload event_from_payload
event_from_payload-to_payload e = elim (Bool-cases (ltb e.duration 0x10000)) [
  | inl fits ↦ rw (
    lt→ltb (e.event % 256) 256 (omega arith),
    lt→ltb _ _ (flags-lt e.end e.volume),
    fits,
    flags_end e.end e.volume,
    flags_volume e.end e.volume,
    u16_of-pack e.duration,
  )
  | inr long ↦
      rw (lt→ltb (e.event % 256) 256 (omega arith), lt→ltb _ _ (flags-lt e.end e.volume), long)
]

abbrev code_of_key : ℕ → ℕ
code_of_key e = table_get dtmf_events (upper (key_of dtmf_events e)) 0

keys_table : all_below 16 (λ e. code_of_key e == e) ≡ true
unfolding all_below table_get upper key_of
keys_table = refl

key_code : (e : ℕ) → e < 16 → code_of_key e ≡ e
key_code e h = (==_iff _ e).0 (all_below_sound 16 _ e h keys_table)

-- For each of the sixteen event codes, the event made from the code's own digit is that event:
-- `from_digit` undoes the property `digit`, with the volume at its default.
pub event_from_digit-digit :
    (e : DtmfEvent)
    → e.event < 16
    → event_from_digit (event_digit e) e.duration e.end ≡ record e { volume = 10 }
unfolding event_digit event_from_digit
event_from_digit-digit e h =
    ap (λ code. record { event = code; end = e.end; volume = 10; duration = e.duration })
      (key_code e.event h)
