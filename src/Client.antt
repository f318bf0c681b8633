-- ===== src/Client.antt =====
-- app/clients/rcs2000_client.py. A call reads the two Redis keys of the connection settings and
-- puts requests on the wire; it touches no other state. Waits between attempts take no model time.
pub mod Wire
pub mod Response
pub mod Request
pub mod Retry
pub mod Api
pub mod Construction
