-- ===== src/Examples.antt =====
-- The theorems at concrete inputs: where their hypotheses hold, and what they then say.
mod Windows
mod Phones
mod Policies
mod Calls
mod Leasing
mod Streams
mod Leads
mod Breakers
mod Outbounds
mod Dialing
mod Redials
mod Analyses
mod Webhooks
