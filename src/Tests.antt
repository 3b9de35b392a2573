-- ===== src/Tests.antt =====
-- The theorems at concrete inputs, and runs of the code.
mod Ascii
mod Codec
mod Device
mod Events
mod Health
mod Inventory
mod Intent
mod Jobs
mod Proxy
mod Server
mod Credentials
mod Worker
