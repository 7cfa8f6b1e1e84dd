-- ===== src/Network.antt =====
-- internal/netutil: MAC addresses (mac.go), the search of an address in the output of arp
-- (ip_addr.go), and the choice of an interface (ifaces.go). A text is the list of its code points.
pub mod Text
pub mod Mac
pub mod Arp
pub mod Interfaces
mod Examples
