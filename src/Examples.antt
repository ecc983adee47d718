-- ===== src/Examples.antt =====
-- Concrete libraries, and the theorems applied to concrete inputs with them.
mod Format
mod Abi
mod Clock
mod Keys
mod Client
mod Updates
mod Messages
mod Basics
mod Enclave
mod Handler
mod Rocks
mod Host
