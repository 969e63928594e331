-- ===== src/Lib.antt =====
-- sinty-nm: a network daemon with the D-Bus interface of NetworkManager. It brings links up
-- through netlink, joins wifi networks through wpa_supplicant or iwd, gets addresses from a DHCPv4
-- client of its own, and renders the resolver configuration.
--
-- Base is shared: Boolean tests on native numbers, lists, byte buffers and their big- and little-
-- endian fields, results, association lists. Net is what the program uses of Go's package net. A
-- Go string or byte slice is a list of numbers; an error is a value of a data type per file.
--
-- Core: internal/core. The data types that the parts exchange, and LinkLocal, the address of a
-- wired link where no DHCP server answers (linklocal.go).
--
-- Dhcp: internal/backend/dhcp. Packet is packet.go (`buildMsg`, `parseReply`, `toLease`), Frame
-- the IPv4 and UDP framing of socket.go (`encodeIPUDP`, `decodeIPUDP`, `checksum`), Bpf the frames
-- of a BPF read (socket_bpf.go), Client the receive loop of socket.go and the client of dhcp.go
-- (`handshake`, `Acquire`, `Release`). A handshake broadcasts messages that Packet builds,
-- receives packets that Frame decodes and Packet parses, and the client keeps a lease per
-- interface for its release. What the network, the clock, the context and the random source answer
-- is data: `Round` for each round of the receive loop (a packet of the packet socket is cut to the
-- buffer of 2048 bytes, a BPF frame is not), `Attempt` for each handshake, `Host` and
-- `Line` for the sockets.
--
-- Rtnl: internal/backend/rtnl. Wire is the framing of wire.go (`buildMessage`, `appendAttr`,
-- `forEachAttr`), Links its decoding of link messages (`parseLink`, `classify`), Requests the
-- payloads that rtnl.go builds (`SetUp`, `SetMTU`, `AddAddr`), Order the byte order of the
-- machine, for which every statement holds in both. The callback of `forEachAttr` passes a state
-- on, and a panic is an error; whether sysfs has a node is an argument.
--
-- Sys: internal/backend/sys. Rfkill is rfkill.go: the events of /dev/rfkill, the state of the wifi
-- switches and what a subscriber hears, over lists of what the reads and the ticks answer. Conn is
-- `Check` of conn.go, on the answer of the HTTP client.
--
-- Wpa: internal/backend/wpa. Escape is `unescape` and `hexOf`, Scan `parseScanResults`, Status
-- `parseStatus` and `follow`, Profiles the files of saved networks, Connect the dialogue of
-- `Connect`. What the control socket answers to a command is a function of the command, and the
-- events that arrive are a list, as the deadline ends it.
--
-- Nmapi: internal/nmapi. State is the manager (manager.go) with its devices (device.go) and active
-- connections (active.go): object paths are numbers, and what objects point to is in two heaps.
-- Variant is the settings map of a profile, Profile its readers and Store the profiles
-- (settings.go, vpn.go). Registry is `onLinkEvent` and `resolveDevice`, Activation the life of an
-- active connection (`activate`, `deactivate`, `runActivation`), BringUp its way up (`bringUp`,
-- `configureIPv4`, `configureDHCP`, `applyLease`), WireGuard `bringUpWireGuard`, Auto autowifi.go
-- and autowired.go, Control the calls of clients and `pollConnectivity`, Complete `completeSettings`
-- and `AddAndActivateConnection`, Access `populateAPs` (wireless.go, accesspoint.go). Each operation
-- maps a manager to a manager; calls of backends and signals go to a log, and what the outside
-- answers is an argument (`World`, `Answers`). Steps makes the operations a step relation: an
-- activation is its way up, its publication or failure, which may come late, and its end, and any
-- other operation may come between these. Within any other operation nothing else runs, though the
-- source takes its locks several times: Activation.Race shows what two that overlap can do. The
-- waiting loop of `ensureWireGuardDevice` is a list of rounds, as its deadline ends it. A link event
-- calls `populateAPs` at once; in Registry and Auto it is a task that waits, as it writes only the
-- access points, which no other operation writes. Access keeps these as shared objects; the order in
-- which Go goes through a map is that of the list.
--
-- The option loop of `parseReply` runs on fuel of the packet's length, the BPF loop on fuel of the
-- bytes pending, `forEachAttr` on fuel of the message's length, the carry loop of `checksum` and
-- the padding loop of `appendAttr` on three rounds; each is enough by a theorem or a lemma. The
-- rounds of the receive loop are a list, as its budget ends it, and the handshakes are at most
-- five. A slice of a BPF read past its length is an error, where Go panics or reads on to the capacity.
--
-- Not modelled: system calls, the D-Bus objects and their property tables, the keyfiles, the wifi
-- backend iwd, the netlink of wg, and the packages of internal that no file here names.
pub mod Base
pub mod Net
pub mod Core
pub mod Dhcp
pub mod Rtnl
pub mod Sys
pub mod Wpa
pub mod Nmapi
