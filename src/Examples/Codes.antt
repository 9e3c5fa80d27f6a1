-- ===== src/Examples/Codes.antt =====
-- USSD codes at concrete inputs.
use virtual_phone.Prelude.{◌≡◌, refl, none, some, [], ◌++◌}
use virtual_phone.Texts.{codes}
use virtual_phone.Forwarding.{busy, no_reply, not_reachable, should_forward}
use virtual_phone.Ussd.{Ussd, query, register, deactivate, erase, cf_request, send_ussd}
use virtual_phone.Ussd.Register.{should_forward-send_ussd}

abbrev phone_codes : Ussd
phone_codes = record { session = none; cf = []; imei = codes "358240051111110" }

should_forward-send_ussd_example :
    should_forward busy (send_ussd (codes "*21*" ++ (codes "+4912" ++ codes "#")) phone_codes).0.cf
    ≡ some (codes "+4912")
should_forward-send_ussd_example =
    should_forward-send_ussd (codes "+4912") busy phone_codes
      (refl, (refl, (refl, (refl, (refl, tt))))) refl

queried : cf_request (codes "*#67#") ≡ some (query busy)
unfolding cf_request
queried = refl

registered : cf_request (codes "**62*100#") ≡ some (register not_reachable (codes "100"))
unfolding cf_request
registered = refl

deactivated : cf_request (codes "#61#") ≡ some (deactivate no_reply)
unfolding cf_request
deactivated = refl

erased : cf_request (codes "##67#") ≡ some (erase busy)
unfolding cf_request
erased = refl

imei_shown : (send_ussd (codes " *#06# ") phone_codes).1 ≡ (0, codes "IMEI: 358240051111110")
unfolding send_ussd
imei_shown = refl

unknown_code : (send_ussd (codes "#99#") phone_codes).1 ≡ (2, codes "USSD code not recognized")
unfolding send_ussd
unknown_code = refl
