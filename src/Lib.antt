-- ===== src/Lib.antt =====
-- Verification of the virtual phone: calls, the media path, the message codings and the virtual eUICC.
--
-- The program emulates the telephony half of a phone. Its IMS stack (ims/) registers with a
-- network, carries calls as RTP and sends text messages; the virtual eUICC (euicc/) keeps the SIM
-- profiles and answers the authentication; the bridges (hal/, ril_shim/) join both to an Android
-- guest; rsp/ downloads profiles. What is modelled here is the part that computes: byte layouts,
-- codings, buffers and state machines.
--
-- Prelude       shared names: native numbers, Boolean tests, lists, `Result` for code that raises
-- Bytes         bytes as numbers, `struct` packing (Words), readers of a byte string (Reading)
-- Rtp           ims/rtp.py: RTPPacket (to_bytes, from_bytes), RTCP reports in Rtp/Reports
-- Codec         ims/codec.py: AMRFrame and DTMFEvent with their RTP payloads
-- Jitter        ims/media.py: JitterBuffer (put, get, reset)
-- Sms/Gsm7      ims/sms_pdu.py: encode_gsm7 and decode_gsm7; likewise Bcd, and Utf16 for the
--               coding that the code takes from Python
-- Sms/Address   SMSAddress; Sms/Tpdu has the user data shared by SMSSubmit and SMSDeliver, and both
-- Sms/Relay     RPData and RPAck; Sms/Ril the hex string of the radio interface layer
-- Sms/Header    the concatenation header; Sms/Multipart split_multipart, reassemble_multipart
-- Euicc         euicc/euicc.py and euicc/isdp.py: VirtualEUICC with its profiles in memory and on
--               disk (install_profile, enable_profile, disable_profile, delete_profile)
-- Milenage      euicc/crypto/milenage.py: f1 to f5*, authenticate, generate_auts
-- Forwarding    ims/supplementary.py: CallForwardingManager
-- Texts         Python strings: literals, searches, decimal numbers
-- Sdp           ims/volte.py: build_sdp_offer and the extraction of codec and number; ims/media.py:
--               parse_remote_rtp_address
-- Volte         ims/volte.py: VoLTECallManager, with the voice calls of RadioHAL in hal/radio_hal.py,
--               which call each other: the state of both (State), outgoing calls (Outgoing), hold,
--               swap and conference (Hold), transfers (Transfer), the requests of Android (Voice,
--               Multi), SIP messages (Incoming, Signals), start and stop (Service), runs (Reach)
-- Apdu          euicc/apdu/handler.py: commands and responses, the elementary files (Files),
--               APDUHandler over Euicc and Milenage (Handler)
-- Ussd          ims/supplementary.py: USSDHandler and its codes
-- Examples      runs of the definitions and instances of the theorems
--
-- State and operations. A dataclass is a record with the same fields; a method that changes it is
-- a function that returns the new record, and one that may raise returns a `Result` (or, for
-- JitterBuffer.put, the state and what was raised). A byte or a character is a natural number;
-- `bytes([x])` and `struct.pack` raise where x does not fit. Text is a list of code points. The
-- module-level reference counter of multi-part messages is an argument and a result.
--
-- Fuel and bounds. The `while` loops over a text or a header take as fuel the length of what is
-- left, and each round takes at least one element. The inner loop of encode_gsm7 runs twice at
-- most, since at most 14 bits are held.
--
-- Parameters. The floats of the jitter estimate are a type with operations. AES is a function on
-- blocks: the theorems about Milenage assume that it takes a block of 16 bytes to one
-- of 16 bytes, and that the operator key is one. A profile
-- file is the record that ISDP.to_dict writes and ISDP.from_dict reads.
-- The phone is one state: the call manager, the radio, and for each whether it was given the other
-- (set_radio_hal, set_call_manager); every test of that is modelled. In the repository only tests call
-- the two: ims/service.py starts the manager without a radio, and hal/ril_bridge.py makes a radio
-- without a manager. What the network answers to a request, a timeout included, whether a media
-- session starts and the Call-IDs that are generated are arguments. An operation that waits for an
-- answer is one step, but dial and initiate_call are two, and every other operation may run between
-- them. Of a SIP message only what
-- the handlers look at is kept, and of one that is sent the method or status, the Call-ID and the
-- body or target. The handler's string encoding and the text of STATUS are arguments. pycryptodome
-- raises for a block that is not whole, which generate_auts and gsm_authenticate show (whole_block).
--
-- Not modelled: sockets, coroutines, timers, files, logging and HTTP; random numbers and clocks are
-- arguments where a result depends on them.
pub mod Prelude
pub mod Bytes
pub mod Rtp
pub mod Codec
pub mod Sms
pub mod Jitter
pub mod Euicc
pub mod Milenage
pub mod Forwarding
pub mod Texts
pub mod Sdp
pub mod Volte
pub mod Apdu
pub mod Ussd
mod Examples
