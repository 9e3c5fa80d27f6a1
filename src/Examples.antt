-- ===== src/Examples.antt =====
-- The theorems at concrete inputs, and runs of the definitions.
mod Media
mod Card
mod Usim
mod Rules
mod Calls
mod Login
mod Codes
mod Messages
mod Phones
