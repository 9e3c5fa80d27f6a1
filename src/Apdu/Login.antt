-- ===== src/Apdu/Login.antt =====
-- AUTHENTICATE against a network with the same keys (euicc/apdu/handler.py with
-- euicc/crypto/milenage.py).
use virtual_phone.Prelude.{
  ℕ, ◌+◌, ◌^◌, ◌<◌, ◌≤◌, ◌≡◌, refl, sym, ap, ◌∙◌, false, Option, none, some, List, [], ◌∷◌, ◌++◌,
  ltb, if◌then◌else◌, length, take, drop, arith, length-append, take-append, drop-append, take_all,
  get_or, append_assoc, Bool-cases, inl, inr, Result, ok, ◌>>=◌, store, text_key, find-store_same,
}
use virtual_phone.Sms.Gsm7.{Text}
use virtual_phone.Sms.Ril.{from_hex}
use virtual_phone.Bytes.{Bytes}
use virtual_phone.Euicc.{Isdp, Euicc, get_active_profile, live_profile, or_default}
use virtual_phone.Milenage.{Milenage, new, xor, from_big, f1, f1star, f2345, f5star, generate_auts}
use virtual_phone.Milenage.Sizes.{BlockSized, length-xor, length-f1, length-f2345}
use virtual_phone.Milenage.Challenge.{
  network_token, IsField, authenticate-network, generate_auts_lem,
}
use virtual_phone.Apdu.{Command, Response}
use virtual_phone.Apdu.Handler.{
  Handler, success, increment_sqn, aka_response, auts_response, rand_of, autn_of,
  handle_authenticate,
}

-- The data of the command that a phone sends for a challenge.
abbrev pub challenge : Bytes → Bytes → Bytes
challenge rand autn = 0x80 ∷ 16 ∷ (rand ++ 16 ∷ autn)

get_or-append : (s t : Bytes) (x d : ℕ) → get_or (s ++ x ∷ t) (length s) d ≡ x
get_or-append [] t x d = refl
get_or-append (y ∷ s) t x d = get_or-append s t x d

slices :
    (rand autn : Bytes)
    → length rand ≡ 16
    → length autn ≡ 16
    → (rand_of (challenge rand autn) ≡ rand)
      × (autn_of (challenge rand autn) ≡ autn)
      × (length (challenge rand autn) ≡ 35)
slices rand autn r a =
    let size : get_or (rand ++ 16 ∷ autn) 16 0 ≡ 16 =
      ap (λ n. get_or (rand ++ 16 ∷ autn) n 0) (sym r) ∙ get_or-append rand autn 16 0 in
    let rest : drop 17 (rand ++ 16 ∷ autn) ≡ autn =
      ap (drop 17) (sym (append_assoc rand (16 ∷ []) autn))
      ∙ ap (λ n. drop n ((rand ++ 16 ∷ []) ++ autn)) {x = 17} {y = length (rand ++ 16 ∷ [])}
          (omega (arith, length-append rand (16 ∷ []), r))
      ∙ drop-append (rand ++ 16 ∷ []) autn in
    (
      ap (λ n. take n (rand ++ 16 ∷ autn)) (sym r) ∙ take-append rand (16 ∷ autn),
      rw (size, rest) (take_all 16 autn (omega (arith, a))),
      omega (arith, length-append rand (16 ∷ autn), r, a),
    )

-- AUTHENTICATE of a challenge by a network that has the keys of the active profile.
pub record IsLogin (cipher : Bytes → Bytes → Bytes) (p : Isdp) (m : Milenage) (h : Handler)
    : Type 0 where
  pub active : get_active_profile h.euicc ≡ some p
  pub key : Bytes
  pub key_hex : from_hex p.ki ≡ ok key
  pub key_size : length key ≡ 16
  pub opc_hex : from_hex p.opc ≡ ok m.opc
  pub opc_size : length m.opc ≡ 16
  pub encrypts : m.encrypt ≡ cipher key
  pub sized : BlockSized m

token_size :
    (m : Milenage) (rand sqn amf : Bytes)
    → BlockSized m
    → IsField rand sqn amf
    → length (network_token m rand sqn amf) ≡ 16
token_size m rand sqn amf sized f =
    let wide : length sqn ≤ length (f2345 m rand).ak =
      omega (arith, f.sqn_size, (length-f2345 m sized rand f.rand_size).3) in
    omega (
      arith,
      length-append (xor sqn (f2345 m rand).ak) (amf ++ f1 m rand sqn amf),
      length-append amf (f1 m rand sqn amf),
      length-xor sqn (f2345 m rand).ak wide,
      f.sqn_size,
      f.amf_size,
      length-f1 m sized rand f.rand_size sqn amf f.sqn_size f.amf_size,
    )

new-keys :
    (cipher : Bytes → Bytes → Bytes) (key : Bytes) (m : Milenage)
    → m.encrypt ≡ cipher key
    → length key ≡ 16
    → length m.opc ≡ 16
    → new cipher key m.opc ≡ ok m
unfolding new
new-keys cipher key m encrypts key_size opc_size =
    rw (key_size, opc_size) (ap (λ e. ok (record m { encrypt = e })) (sym encrypts))

increment_sqn-active :
    (p : Isdp) (h : Handler)
    → get_active_profile h.euicc ≡ some p
    → get_active_profile (increment_sqn p h).euicc ≡ some (record p { sqn = p.sqn + 1 })
unfolding get_active_profile increment_sqn
increment_sqn-active p h active = live_again h.euicc.active_iccid h.euicc.profiles active
  where
    live_again :
        (iccid : Option Text) (profiles : List (Text × Isdp))
        → live_profile iccid profiles ≡ some p
        → live_profile iccid
            (store text_key (or_default iccid []) (record p { sqn = p.sqn + 1 }) profiles)
          ≡ some (record p { sqn = p.sqn + 1 })
    live_again none profiles e = absurd (cc (e))
    live_again (some []) profiles e = absurd (cc (e))
    live_again (some (x ∷ iccid)) profiles e =
        find-store_same text_key (x ∷ iccid) (record p { sqn = p.sqn + 1 }) profiles

module _ (cipher : Bytes → Bytes → Bytes) (encode : Text → Result Bytes)
    (info : Euicc → Bytes) where
  -- The two ways that AUTHENTICATE of such a challenge goes.
  handle_authenticate_either :
      (c : Command) (rand sqn amf : Bytes) (p : Isdp) (m : Milenage) (h : Handler)
      → IsLogin cipher p m h
      → IsField rand sqn amf
      → c.payload ≡ challenge rand (network_token m rand sqn amf)
      → handle_authenticate cipher encode info c h ≡ (
          let v = f2345 m rand in
          if ltb (from_big 0 sqn) p.sqn
          then (generate_auts m rand p.sqn >>= λ auts. ok (h, success (auts_response auts)))
          else ok (increment_sqn p h, success (aka_response (v.res, v.ck, v.ik))))
  unfolding handle_authenticate
  handle_authenticate_either c rand sqn amf p m h l f sent =
      let (rand_read, autn_read, size) =
        slices rand (network_token m rand sqn amf) f.rand_size
          (token_size m rand sqn amf l.sized f) in
      let known = authenticate-network m l.sized rand sqn amf p.sqn f in
      rw (l.active, sent)
        (rw (size) (
          rw (rand_read, autn_read, l.key_hex)
            (rw (l.opc_hex, new-keys cipher l.key m l.encrypts l.key_size l.opc_size, known)
              (elim (Bool-cases (ltb (from_big 0 sqn) p.sqn)) [
                | inl old ↦ rw old refl
                | inr recent ↦ rw recent refl
              ]))))

  -- AUTHENTICATE of a challenge by a network with the keys of the active profile: unless the sequence
  -- number is below the profile's, it is answered with DB and RES, CK and IK, and the profile's number
  -- grows by one; else with DC and a token of 14 bytes, the AUTS of the profile's number, and nothing
  -- changes: the token's first six bytes are that number under AK*, and the rest its MAC-S. The
  -- profile's number has 48 bits, the keys and the cipher's blocks 16 bytes, and the parts of the
  -- challenge their standard sizes.
  pub handle_authenticate-network :
      (c : Command) (rand sqn amf : Bytes) (p : Isdp) (m : Milenage) (h : Handler)
      → IsLogin cipher p m h
      → IsField rand sqn amf
      → c.payload ≡ challenge rand (network_token m rand sqn amf)
      → p.sqn < 2 ^ 48
      → (auts held : Bytes) × (handle_authenticate cipher encode info c h ≡ (
          let v = f2345 m rand in
          if ltb (from_big 0 sqn) p.sqn
          then ok (h, success (0xdc ∷ 14 ∷ auts))
          else ok (increment_sqn p h, success (aka_response (v.res, v.ck, v.ik)))))
        × (length auts ≡ 14)
        × (from_big 0 held ≡ p.sqn)
        × (xor (take 6 auts) (f5star m rand) ≡ held)
        × (drop 6 auts ≡ f1star m rand held (0 ∷ 0 ∷ []))
  handle_authenticate-network c rand sqn amf p m h l f sent small =
      let (auts, held, made, size, number, hidden, mac) =
        generate_auts_lem m l.sized rand p.sqn f.rand_size small in
      let ways = handle_authenticate_either c rand sqn amf p m h l f sent in
      (auts, held, ways ∙ rw (made, size) refl, size, number, hidden, mac)

  -- An accepted challenge with a sequence number above the profile's is accepted again: the same
  -- command gets the same answer a second time, and the profiles on disk are as before.
  pub handle_authenticate-replayed :
      (c : Command) (rand sqn amf : Bytes) (p : Isdp) (m : Milenage) (h : Handler)
      → IsLogin cipher p m h
      → IsField rand sqn amf
      → c.payload ≡ challenge rand (network_token m rand sqn amf)
      → p.sqn < from_big 0 sqn
      → let v = f2345 m rand in
        let answer : Response = success (aka_response (v.res, v.ck, v.ik)) in
        let once : Handler = increment_sqn p h in
        (handle_authenticate cipher encode info c h ≡ ok (once, answer))
        × (handle_authenticate cipher encode info c once
            ≡ ok (increment_sqn (record p { sqn = p.sqn + 1 }) once, answer))
        × (once.euicc.files ≡ h.euicc.files)
  handle_authenticate-replayed c rand sqn amf p m h l f sent above =
      let p' : Isdp = record p { sqn = p.sqn + 1 } in
      let first = handle_authenticate_either c rand sqn amf p m h l f sent in
      let again : IsLogin cipher p' m (increment_sqn p h) = record {
        active = increment_sqn-active p h l.active;
        key = l.key;
        key_hex = l.key_hex;
        key_size = l.key_size;
        opc_hex = l.opc_hex;
        opc_size = l.opc_size;
        encrypts = l.encrypts;
        sized = l.sized;
      } in
      let second =
        handle_authenticate_either c rand sqn amf p' m (increment_sqn p h) again f sent in
      let recent : ltb (from_big 0 sqn) p.sqn ≡ false = ground (arith, above) in
      let still : ltb (from_big 0 sqn) (p.sqn + 1) ≡ false = ground (arith, above) in
      (rw recent at first, rw still at second, unfold increment_sqn in refl)
