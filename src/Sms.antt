-- ===== src/Sms.antt =====
-- ims/sms_pdu.py: short messages of 3GPP TS 23.040 and their transport.
pub mod Gsm7
pub mod Bcd
pub mod Utf16
pub mod Address
pub mod Tpdu
pub mod Relay
pub mod Ril
pub mod Header
pub mod Multipart
