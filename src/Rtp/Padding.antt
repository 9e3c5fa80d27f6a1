-- ===== src/Rtp/Padding.antt =====
-- Padding and header extensions of RTPPacket.from_bytes (ims/rtp.py).

use virtual_phone.Prelude.{
  ℕ, suc, ◌*◌, ◌+◌, ◌-◌, ◌≤◌, ◌≡◌, refl, true, false, [], ◌∷◌, ◌++◌, ap, ◌∙◌, arith, length, take,
  ok, append_assoc, ◌>>=◌, le→leb, length-append, take-append, drop-append,
}
use virtual_phone.Bytes.{Bytes}
use virtual_phone.Bytes.Words.{u16_of}
use virtual_phone.Rtp.{RtpPacket, to_bytes, from_bytes, skip_extension, last_byte, strip_padding}
use virtual_phone.Rtp.RoundTrip.{
  HonestCount, on_wire, csrc_words, to_bytes-eq-wire, from_bytes-wire,
}

last_byte-append : (b : ℕ) (xs : Bytes) (n : ℕ) → last_byte b (xs ++ n ∷ []) ≡ n
unfolding last_byte
last_byte-append b [] n = refl
last_byte-append b (x ∷ xs) n = last_byte-append x xs n

-- Padding of RFC 3550: filler whose last byte counts the padding bytes, itself included.
abbrev pub padding_bytes : Bytes → Bytes
padding_bytes fill = fill ++ (length fill + 1) ∷ []

strip_padding-cons :
    (head b : ℕ) (xs : Bytes) (pad : ℕ)
    → last_byte b xs ≡ pad
    → pad ≤ suc (length xs)
    → strip_padding true (head + length (b ∷ xs)) (b ∷ xs) ≡ take (suc (length xs) - pad) (b ∷ xs)
unfolding strip_padding
strip_padding-cons head b xs pad e h =
    rw (e, le→leb pad (head + suc (length xs)) (omega arith))
      (ap (λ n. take n (b ∷ xs)) (omega arith))

last_byte-padded :
    (b : ℕ) (media fill : Bytes) → last_byte b (media ++ padding_bytes fill) ≡ length fill + 1
last_byte-padded b media fill =
    rw (← append_assoc media fill ((length fill + 1) ∷ []))
      (last_byte-append b (media ++ fill) (length fill + 1))

-- The padding of a packet is cut off exactly.
pub strip_padding-append :
    (head : ℕ) (media fill : Bytes)
    → strip_padding true (head + length (media ++ padding_bytes fill)) (media ++ padding_bytes fill)
      ≡ media
strip_padding-append head [] [] =
    unfold last_byte in strip_padding-cons head 1 [] 1 refl (omega arith)
strip_padding-append head [] (f ∷ fill) =
    let n : ℕ = suc (length fill) + 1 in
    let xs : Bytes = fill ++ n ∷ [] in
    let len : length xs ≡ length fill + 1 = length-append fill (n ∷ []) in
    strip_padding-cons head f xs n (last_byte-append f fill n) (omega arith)
    ∙ ap (λ k. take k (f ∷ xs)) {y = 0} (omega arith)
strip_padding-append head (m ∷ media) fill =
    let n : ℕ = length fill + 1 in
    let xs : Bytes = media ++ padding_bytes fill in
    let len : length xs ≡ length media + (length fill + 1) =
      length-append media (padding_bytes fill)
      ∙ ap (λ k. length media + k) (length-append fill (n ∷ [])) in
    strip_padding-cons head m xs n (last_byte-padded m media fill) (omega arith)
    ∙ ap (λ k. take k (m ∷ xs)) {y = suc (length media)} (omega arith)
    ∙ take-append (m ∷ media) (padding_bytes fill)

cut :
    (p : RtpPacket) (media fill : Bytes)
    → p.padding ≡ true
    → p.extension ≡ false
    → p.payload ≡ media ++ padding_bytes fill
    → strip_padding p.padding
        (12 + length (csrc_words (take p.csrc_count p.csrc_list) ++ p.payload))
        (skip_extension p.extension p.payload)
      ≡ media
unfolding skip_extension
cut p media fill pad ext e =
    let head : Bytes = csrc_words (take p.csrc_count p.csrc_list) in
    rw (pad, ext, e)
      (ap (λ n. strip_padding true n (media ++ padding_bytes fill))
          (omega (arith, length-append head (media ++ padding_bytes fill)))
        ∙ strip_padding-append (12 + length head) media fill)

skip :
    (p : RtpPacket) (profile1 profile0 len1 len0 : ℕ) (ext media : Bytes)
    → p.padding ≡ false
    → p.extension ≡ true
    → length ext ≡ u16_of len1 len0 * 4
    → p.payload ≡ profile1 ∷ profile0 ∷ len1 ∷ len0 ∷ (ext ++ media)
    → strip_padding p.padding
        (12 + length (csrc_words (take p.csrc_count p.csrc_list) ++ p.payload))
        (skip_extension p.extension p.payload)
      ≡ media
unfolding skip_extension strip_padding
skip p profile1 profile0 len1 len0 ext media pad flag len e =
    rw (pad, flag, e, ← len) (drop-append ext media)

-- For every packet of version 2 with an honest CSRC count and no extension whose padding flag is
-- set, and whose payload is media followed by RFC 3550 padding, parsing the written bytes gives
-- the packet with exactly the media as its payload, each header field cut to its width.
pub from_bytes-to_bytes_padded :
    (p : RtpPacket) (media fill : Bytes)
    → p.version ≡ 2
    → HonestCount p
    → p.padding ≡ true
    → p.extension ≡ false
    → p.payload ≡ media ++ padding_bytes fill
    → (to_bytes p >>= from_bytes) ≡ ok (on_wire p media)
from_bytes-to_bytes_padded p media fill v h pad ext e =
    rw (to_bytes-eq-wire p v)
      (from_bytes-wire p v h ∙ ap (λ x. ok (on_wire p x)) (cut p media fill pad ext e))

-- With the extension flag set, whose payload is an extension header that counts `words` words,
-- those words and then media, parsing skips the extension: the payload read is the media alone.
pub from_bytes-to_bytes_extended :
    (p : RtpPacket) (profile1 profile0 len1 len0 : ℕ) (ext media : Bytes)
    → p.version ≡ 2
    → HonestCount p
    → p.padding ≡ false
    → p.extension ≡ true
    → length ext ≡ u16_of len1 len0 * 4
    → p.payload ≡ profile1 ∷ profile0 ∷ len1 ∷ len0 ∷ (ext ++ media)
    → (to_bytes p >>= from_bytes) ≡ ok (on_wire p media)
from_bytes-to_bytes_extended p profile1 profile0 len1 len0 ext media v h pad flag len e =
    rw (to_bytes-eq-wire p v) (
      from_bytes-wire p v h
      ∙ ap (λ x. ok (on_wire p x)) (skip p profile1 profile0 len1 len0 ext media pad flag len e))
