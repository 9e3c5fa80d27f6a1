-- ===== src/Examples/Usim.antt =====
-- Milenage at a concrete key, with a block cipher that only pads.
use virtual_phone.Prelude.{
  ◌≡◌, refl, [], ◌∷◌, ◌++◌, ok, length, take, drop, replicate, arith, length-take, length-append,
}
use virtual_phone.Bytes.{Bytes}
use virtual_phone.Milenage.{Milenage, xor, from_big, f1star, f5star, generate_auts}
use virtual_phone.Milenage.Sizes.{BlockSized}
use virtual_phone.Milenage.Challenge.{IsField, generate_auts_lem}

abbrev usim : Milenage
usim = record { encrypt = λ block. take 16 (block ++ replicate 16 7); opc = replicate 16 9 }

padded_size : (block : Bytes) → length (take 16 (block ++ replicate 16 7)) ≡ 16
padded_size block =
    omega (arith, length-take 16 (block ++ replicate 16 7), length-append block (replicate 16 7))

usim-BlockSized : BlockSized usim
usim-BlockSized = record { block = λ b h. padded_size b; key = refl }

abbrev rand : Bytes
rand = replicate 16 1

abbrev sqn : Bytes
sqn = 0 ∷ 0 ∷ 0 ∷ 0 ∷ 0 ∷ 32 ∷ []

abbrev amf : Bytes
amf = 0x80 ∷ 0 ∷ []

sizes : IsField rand sqn amf
sizes = record { rand_size = refl; sqn_size = refl; amf_size = refl; sqn_bytes = omega arith }

generate_auts_lem_example :
    (auts s : Bytes) × (generate_auts usim rand 31 ≡ ok auts)
    × (length auts ≡ 14)
    × (from_big 0 s ≡ 31)
    × (xor (take 6 auts) (f5star usim rand) ≡ s)
    × (drop 6 auts ≡ f1star usim rand s (0 ∷ 0 ∷ []))
generate_auts_lem_example = generate_auts_lem usim usim-BlockSized rand 31 refl (omega arith)
