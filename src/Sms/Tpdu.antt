-- ===== src/Sms/Tpdu.antt =====
-- SMSSubmit and SMSDeliver of ims/sms_pdu.py, and the user data that both carry.
pub mod UserData
pub mod Submit
pub mod Deliver
pub mod SubmitRoundTrip
pub mod DeliverRoundTrip
