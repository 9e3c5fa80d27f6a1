-- ===== src/Apdu/Handler.antt =====
-- The command handler of the card (euicc/apdu/handler.py: APDUHandler).
use virtual_phone.Prelude.{
  ℕ, ◌+◌, ◌*◌, Bool, ◌&&◌, Option, none, some, [], ◌∷◌, ◌++◌, ◌==◌, leb, ltb, if◌then◌else◌, length,
  take, drop, get_or, Result, ok, raised, ◌>>=◌, store, text_key,
}
use virtual_phone.Sms.Gsm7.{Text}
use virtual_phone.Sms.Ril.{from_hex}
use virtual_phone.Bytes.{Bytes}
use virtual_phone.Euicc.{Isdp, Euicc, get_active_profile, or_default}
use virtual_phone.Milenage.{Milenage, new, slice, authenticate, generate_auts, gsm_authenticate}
use virtual_phone.Apdu.{Command, Response, command_from_bytes}
use virtual_phone.Apdu.Files.{read_ef}

-- The handler with its card.
pub record Handler : Type 0 where
  pub euicc : Euicc
  pub selected_ef : Option ℕ
  pub pending_response : Option Bytes

abbrev pub success : Bytes → Response
success octets = record { payload = octets; sw1 = 0x90; sw2 = 0 }

-- A status word with no data.
abbrev pub status : ℕ → ℕ → Response
status sw1 sw2 = record { payload = []; sw1 = sw1; sw2 = sw2 }

abbrev pub conditions_not_satisfied : Response
conditions_not_satisfied = status 0x69 0x85

abbrev pub wrong_length : Response
wrong_length = status 0x67 0

-- The file that SELECT by file ID names.
abbrev pub select_file : Bytes → Handler → Handler × Response
select_file (high ∷ low ∷ _) h = (record h { selected_ef = some (high * 256 + low) }, success [])
select_file _ h = (h, status 0x6a 0x86)

-- _handle_select
unfoldable pub handle_select : Command → Handler → Handler × Response
handle_select c h =
    if c.p1 == 4
    then (h, success [])
    else if c.p1 == 0
    then select_file c.payload h
    else (h, status 0x6a 0x86)

-- `data[offset:]`, and then `data[:le]` if Le is set.
abbrev pub part_of : Command → Bytes → Bytes
part_of c octets =
    let rest = drop (c.p1 * 256 + c.p2) octets in if ltb 0 c.le then take c.le rest else rest

abbrev pub read_response : (Bytes → Bytes) → Option Bytes → Response
read_response cut none = status 0x6a 0x82
read_response cut (some octets) = success (cut octets)

-- _handle_get_response
unfoldable pub handle_get_response : Handler → Handler × Response
handle_get_response h = elim h.pending_response [
  | none ↦ (h, conditions_not_satisfied)
  | some octets ↦ (record h { pending_response = none }, success octets)
]

-- `profile.increment_sqn()`, on the profile in memory.
unfoldable pub increment_sqn : Isdp → Handler → Handler
increment_sqn p h = record h {
  euicc = record h.euicc {
    profiles =
        store text_key (or_default h.euicc.active_iccid []) (record p { sqn = p.sqn + 1 })
          h.euicc.profiles;
  };
}

-- DB, and RES, CK and IK with their lengths, which are 16 at most.
abbrev pub aka_response : Bytes × Bytes × Bytes → Bytes
aka_response (res, ck, ik) = 0xdb ∷ length res ∷ (res ++ length ck ∷ (ck ++ length ik ∷ ik))

-- DC and AUTS with its length, which is 14 at most.
abbrev pub auts_response : Bytes → Bytes
auts_response auts = 0xdc ∷ length auts ∷ auts

abbrev pub gsm_response : Bytes × Bytes → Bytes
gsm_response (sres, kc) = length sres ∷ (sres ++ length kc ∷ kc)

-- RAND and AUTN as the command has them.
abbrev pub rand_of : Bytes → Bytes
rand_of octets = slice 2 (get_or octets 1 0) octets

abbrev pub autn_of : Bytes → Bytes
autn_of octets =
    let offset = 2 + get_or octets 1 0 in slice (offset + 1) (get_or octets offset 0) octets

module _ (cipher : Bytes → Bytes → Bytes) (encode : Text → Result Bytes)
    (info : Euicc → Bytes) where
  -- READ BINARY and READ RECORD once a file is selected and a profile active.
  abbrev pub read_selected : (Bytes → Bytes) → Option ℕ → Option Isdp → Result Response
  read_selected cut (some file_id) (some p) =
      read_ef encode file_id p >>= λ octets. ok (read_response cut octets)
  read_selected cut _ _ = ok conditions_not_satisfied

  -- _handle_read_binary and _handle_read_record
  unfoldable pub handle_read_binary : Command → Handler → Result (Handler × Response)
  unfolding read_ef get_active_profile
  handle_read_binary c h =
      read_selected (part_of c) h.selected_ef (get_active_profile h.euicc) >>= λ r. ok (h, r)

  unfoldable pub handle_read_record : Command → Handler → Result (Handler × Response)
  unfolding read_ef get_active_profile
  handle_read_record c h =
      read_selected (λ octets. octets) h.selected_ef (get_active_profile h.euicc) >>= λ r. ok (h, r)

  -- The outcome of Milenage.authenticate.
  abbrev pub aka_outcome :
      Milenage
      → Bytes
      → Isdp
      → Handler
      → Option (Bytes × Bytes × Bytes)
      → Result (Handler × Response)
  aka_outcome m rand p h none =
      generate_auts m rand p.sqn >>= λ auts. ok (h, success (auts_response auts))
  aka_outcome m rand p h (some vector) = ok (increment_sqn p h, success (aka_response vector))

  -- The 3G context.
  abbrev pub aka : Bytes → Isdp → Handler → Result (Handler × Response)
  aka octets p h = do
    ki ← from_hex p.ki
    opc ← from_hex p.opc
    m ← new cipher ki opc
    result ← authenticate m (rand_of octets) (autn_of octets) p.sqn
    aka_outcome m (rand_of octets) p h result

  -- The 2G context.
  abbrev pub gsm : Bytes → Isdp → Handler → Result (Handler × Response)
  gsm octets p h = do
    ki ← from_hex p.ki
    opc ← from_hex p.opc
    m ← new cipher ki opc
    result ← gsm_authenticate m (rand_of octets)
    ok (h, success (gsm_response result))

  abbrev pub is_aka : Bytes → Bool
  is_aka octets = (get_or octets 0 0 == 0x80) && leb (2 + get_or octets 1 0 + 2) (length octets)

  abbrev pub authenticate_profile : Bytes → Option Isdp → Handler → Result (Handler × Response)
  authenticate_profile octets none h = ok (h, conditions_not_satisfied)
  authenticate_profile octets (some p) h =
      let third = aka octets p h in
      let second = gsm octets p h in
      if ltb (length octets) 34
      then ok (h, wrong_length)
      else if is_aka octets
      then third
      else second

  -- _handle_authenticate
  unfoldable pub handle_authenticate : Command → Handler → Result (Handler × Response)
  unfolding from_hex new authenticate generate_auts gsm_authenticate increment_sqn
      get_active_profile
  handle_authenticate c h = authenticate_profile c.payload (get_active_profile h.euicc) h

  -- _handle_status; `info` is `str(get_euicc_info()).encode()`.
  abbrev pub handle_status : Command → Handler → Handler × Response
  handle_status c h = (h, success (take (if c.le == 0 then 256 else c.le) (info h.euicc)))

  -- _dispatch
  unfoldable pub dispatch : Command → Handler → Result (Handler × Response)
  unfolding handle_select handle_read_binary handle_read_record handle_get_response
      handle_authenticate
  dispatch c h =
      if c.ins == 0xa4
      then ok (handle_select c h)
      else if c.ins == 0xb0
      then handle_read_binary c h
      else if c.ins == 0xb2
      then handle_read_record c h
      else if c.ins == 0xc0
      then ok (handle_get_response h)
      else if c.ins == 0xf2
      then ok (handle_status c h)
      else if c.ins == 0x88
      then handle_authenticate c h
      else if c.ins == 0xe2
      then ok (h, success [])
      else ok (h, status 0x6d 0)

  -- `except Exception`: no handler raises after it changed anything.
  abbrev pub caught : Handler → Result (Handler × Response) → Handler × Response
  caught h (ok (next, r)) = (next, r)
  caught h (raised _) = (h, status 0x6f 0)

  abbrev pub process_command : Handler → Result Command → Handler × Response
  process_command h (raised _) = (h, wrong_length)
  process_command h (ok c) = caught h (dispatch c h)

  -- process
  unfoldable pub process : Bytes → Handler → Handler × Response
  unfolding command_from_bytes dispatch
  process raw h = process_command h (command_from_bytes raw)
