-- ===== src/Tests.antt =====
-- The theorems at work on concrete input: one module for each part of the program.
mod Arbiter
mod Writes
mod Frames
mod Packets
mod Sessions
mod Bridge
mod Links
