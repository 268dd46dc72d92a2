-- ===== src/Examples.antt =====
-- A small server, tests of the definitions on it, and the theorems applied to it.
mod Data
mod Running
mod Access
mod Server
mod Owner
mod Enroll
mod Upstream
mod Encode
mod Store
mod Device
