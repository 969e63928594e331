-- ===== src/Dhcp.antt =====
-- internal/backend/dhcp: the DHCPv4 client. Packet is packet.go, Frame the IPv4/UDP framing of
-- socket.go, Client the handshake of dhcp.go and the receive loop of socket.go, Bpf socket_bpf.go.
pub mod Packet
pub mod Frame
pub mod Bpf
pub mod Client
mod Tests
