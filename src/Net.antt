-- ===== src/Net.antt =====
-- src/net: addresses and their masks (netaddr.cc, util.cc), the list of denied hosts and the count
-- of connections (iplist.cc).
pub mod Addr
pub mod Mask
pub mod Deny
pub mod Conn
pub mod Examples
