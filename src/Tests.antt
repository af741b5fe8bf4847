-- ===== src/Tests.antt =====
-- Runs of the model on small inputs, and each theorem at an input that meets its hypotheses.
mod Consistent
mod Texts
mod Operator
mod Receiving
mod Scene
mod Packets
mod Links
mod Inbox
mod Upkeep
mod Wakeups
mod Sending
mod Entry
mod Gate
mod Delivery
