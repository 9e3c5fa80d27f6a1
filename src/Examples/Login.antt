-- ===== src/Examples/Login.antt =====
-- Commands to the card, with a block cipher that only pads.
use virtual_phone.Prelude.{
  ◌≡◌, refl, none, some, [], ◌∷◌, ◌++◌, length, take, drop, replicate, arith, length-take,
  length-append, find, same_text, Result, ok, ◌>>=◌,
}
use virtual_phone.Sms.Gsm7.{Text}
use virtual_phone.Sms.Ril.{from_hex}
use virtual_phone.Bytes.{Bytes}
use virtual_phone.Texts.{codes}
use virtual_phone.Euicc.{Isdp, Euicc, EuiccState, ProfileState, ProfileClass, get_active_profile}
use virtual_phone.Milenage.{Milenage, xor, from_big, f1star, f2345, f5star}
use virtual_phone.Milenage.Challenge.{IsField, network_token}
use virtual_phone.Apdu.{Command, Response, command_from_bytes, command_to_bytes}
use virtual_phone.Apdu.RoundTrip.{command_from_bytes-to_bytes}
use virtual_phone.Apdu.Handler.{
  Handler, success, increment_sqn, aka_response, handle_authenticate, process,
}
use virtual_phone.Apdu.Login.{
  challenge, IsLogin, handle_authenticate-network, handle_authenticate-replayed,
}

abbrev select_imsi : Command
select_imsi = record { cla = 0; ins = 0xa4; p1 = 0; p2 = 0; payload = 0x6f ∷ 0x07 ∷ []; le = 0 }

command_from_bytes-to_bytes_example :
    (command_to_bytes select_imsi >>= command_from_bytes) ≡ ok select_imsi
command_from_bytes-to_bytes_example = command_from_bytes-to_bytes select_imsi (record {
  cla_byte = omega arith;
  ins_byte = omega arith;
  p1_byte = omega arith;
  p2_byte = omega arith;
  payload_size = omega arith;
  le_size = omega arith;
})

abbrev padding : Bytes → Bytes → Bytes
padding key block = take 16 (block ++ replicate 16 7)

abbrev keys : Milenage
keys = record { encrypt = padding (replicate 16 1); opc = replicate 16 1 }

padding_size : (block : Bytes) → length (take 16 (block ++ replicate 16 7)) ≡ 16
padding_size block =
    omega (arith, length-take 16 (block ++ replicate 16 7), length-append block (replicate 16 7))

abbrev profile : Isdp
profile = record {
  iccid = codes "89";
  imsi = codes "001010000000001";
  aid = [];
  ki = codes "01010101010101010101010101010101";
  opc = codes "01010101010101010101010101010101";
  mcc = codes "001";
  mnc = codes "01";
  spn = codes "Virtual";
  msisdn = none;
  gid1 = none;
  gid2 = none;
  impi = none;
  impu = none;
  home_domain = none;
  state = ProfileState.enabled;
  profile_class = ProfileClass.operational;
  sqn = 31;
}

abbrev card : Handler
card = record {
  euicc = record {
    state = EuiccState.ready;
    free_nvram = 0;
    profiles = (codes "89", profile) ∷ [];
    active_iccid = some (codes "89");
    files = (codes "89", profile) ∷ [];
  };
  selected_ef = none;
  pending_response = none;
}

card-IsLogin : IsLogin padding profile keys card
unfolding get_active_profile find same_text from_hex
card-IsLogin = record {
  active = refl;
  key = replicate 16 1;
  key_hex = refl;
  key_size = refl;
  opc_hex = refl;
  opc_size = refl;
  encrypts = refl;
  sized = record { block = λ b h. padding_size b; key = refl };
}

abbrev rand_field : Bytes
rand_field = replicate 16 1

abbrev sqn_field : Bytes
sqn_field = 0 ∷ 0 ∷ 0 ∷ 0 ∷ 0 ∷ 40 ∷ []

abbrev amf_field : Bytes
amf_field = 0x80 ∷ 0 ∷ []

fields : IsField rand_field sqn_field amf_field
fields = record { rand_size = refl; sqn_size = refl; amf_size = refl; sqn_bytes = omega arith }

abbrev challenged : Command
challenged = record {
  cla = 0;
  ins = 0x88;
  p1 = 0;
  p2 = 0x81;
  payload = challenge rand_field (network_token keys rand_field sqn_field amf_field);
  le = 0;
}

abbrev answer_of : Response
answer_of = let v = f2345 keys rand_field in success (aka_response (v.res, v.ck, v.ik))

-- A codec for ASCII, and no listing.
abbrev as_is : Text → Result Bytes
as_is t = ok t

abbrev no_info : Euicc → Bytes
no_info e = []

handle_authenticate-network_example :
    (auts held : Bytes) × (handle_authenticate padding as_is no_info challenged card
      ≡ ok (increment_sqn profile card, answer_of))
    × (length auts ≡ 14)
    × (from_big 0 held ≡ 31)
    × (xor (take 6 auts) (f5star keys rand_field) ≡ held)
    × (drop 6 auts ≡ f1star keys rand_field held (0 ∷ 0 ∷ []))
unfolding from_big
handle_authenticate-network_example =
    handle_authenticate-network padding as_is no_info challenged rand_field sqn_field amf_field
      profile keys card card-IsLogin fields refl (omega arith)

handle_authenticate-replayed_example :
    (handle_authenticate padding as_is no_info challenged card
      ≡ ok (increment_sqn profile card, answer_of))
    × (handle_authenticate padding as_is no_info challenged (increment_sqn profile card)
        ≡ ok (increment_sqn (record profile { sqn = 32 }) (increment_sqn profile card), answer_of))
    × ((increment_sqn profile card).euicc.files ≡ card.euicc.files)
unfolding from_big
handle_authenticate-replayed_example =
    handle_authenticate-replayed padding as_is no_info challenged rand_field sqn_field amf_field
      profile keys card card-IsLogin fields refl (omega arith)

-- A file ID selects, and GET RESPONSE never has anything.
selects :
    (process padding as_is no_info (0 ∷ 0xa4 ∷ 0 ∷ 0 ∷ 2 ∷ 0x6f ∷ 0x07 ∷ []) card).0.selected_ef
    ≡ some 0x6f07
unfolding process
selects = refl
