-- ===== src/Tests.antt =====
-- Concrete worlds, servers and packets, and the theorems applied to them.
mod Worlds
mod Servers
mod Rounds
mod Hubs
mod Packets
mod Matches
mod Entrances
mod Programs
mod Remotes
