-- ===== src/Server.antt =====
-- internal/server: the durable requests, the owner's pages, and what devices call and are enrolled by.
pub mod Authorize
pub mod Snapshot
pub mod Submit
pub mod Decide
pub mod Dispatch
pub mod Maintenance
pub mod Owner
pub mod Status
pub mod Services
pub mod Slots
pub mod Handler
pub mod Enroll
pub mod Session
pub mod OwnerRequests
pub mod OwnerPages
pub mod Lifecycle
pub mod Framed
pub mod Loops
pub mod Growth
pub mod Reads
pub mod QuietRows
pub mod Quiet
pub mod QuietServices
pub mod QuietAccess
pub mod SlotBounds
pub mod Authorized
pub mod Opened
pub mod ClaimSteps
pub mod ClaimDone
pub mod Claimed
pub mod System
pub mod Left
pub mod Claims
pub mod Operations
pub mod Flights
pub mod Once
pub mod Final
pub mod Edges
pub mod Automaton
pub mod Invited
pub mod Enrolled
pub mod OwnerActs
pub mod OwnerChanges
pub mod Login
pub mod Device
pub mod DevicePages
pub mod Forwarded
pub mod SlotBalance
pub mod Listed
pub mod Worker
pub mod Started
pub mod Sweeps
pub mod Withdrawn
pub mod Decided
pub mod Resumed
pub mod Apart
pub mod Disjoint
pub mod Stored
pub mod Submitted
pub mod ClaimTotal
pub mod Inserted
pub mod Delivered
pub mod Limited
pub mod Disclosed
pub mod HeaderLists
