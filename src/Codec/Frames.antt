-- ===== src/Codec/Frames.antt =====
-- AMR frames through an RTP payload (ims/codec.py).
use virtual_phone.Prelude.{
  ℕ, ◌*◌, ◌+◌, ◌/◌, ◌%◌, ◌<◌, ◌≤◌, ◌≡◌, refl, Bool, true, arith, ok, ◌>>=◌, lt→ltb, length,
}
use virtual_phone.Bytes.{bit_at, weigh}
use virtual_phone.Codec.{AmrFrame, frame_to_payload, frame_from_payload, frame_size, silence}

toc-lt : (mode : ℕ) (quality : Bool) → mode % 16 * 8 + weigh quality 4 < 256
toc-lt mode quality = ground arith

toc_mode : (mode : ℕ) (quality : Bool) → (mode % 16 * 8 + weigh quality 4) / 8 % 16 ≡ mode % 16
toc_mode mode quality = ground arith

toc_quality : (mode : ℕ) (quality : Bool) → bit_at 4 (mode % 16 * 8 + weigh quality 4) ≡ quality
toc_quality mode quality = ground arith

cmr_field : (cmr : ℕ) → cmr % 16 * 16 / 16 % 16 ≡ cmr % 16
cmr_field cmr = omega arith

-- Every frame packs, whatever its fields, and unpacking the payload under the same band gives it
-- back with its mode and mode request cut to four bits.
pub frame_from_payload-to_payload :
    (f : AmrFrame)
    → (frame_to_payload f >>= λ payload. frame_from_payload payload f.is_wideband)
      ≡ ok (record f { mode = f.mode % 16; cmr = f.cmr % 16 })
unfolding frame_to_payload frame_from_payload
frame_from_payload-to_payload f = rw (
  lt→ltb (f.cmr % 16 * 16) 256 (omega arith),
  lt→ltb _ _ (toc-lt f.mode f.quality),
  toc_mode f.mode f.quality,
  toc_quality f.mode f.quality,
  cmr_field f.cmr,
)

-- No frame of either band is larger than 60 bytes, and a comfort noise frame of the wide band has
-- exactly the size of its table.
pub frame_size_bound :
    (f : AmrFrame)
    → (frame_size f ≤ 60) × (frame_size (silence true) ≡ length (silence true).payload)
unfolding frame_size silence
frame_size_bound f = (ground arith, refl)
