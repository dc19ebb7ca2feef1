-- ===== src/Cloud.antt =====
-- What the program talks to: the OpenStack services behind gophercloud, the apiserver of a tenant
-- and that of the management cluster. None of it is code of the repository, so it is a parameter:
-- an `Api` answers each call, by the calls made so far, in any way it likes. The code is a `M`
-- action, which carries the log of the calls made.
pub mod Types
pub mod Action
pub mod Hoare
pub mod Pages
pub mod AnyResult
