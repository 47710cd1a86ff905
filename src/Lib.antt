-- ===== src/Lib.antt =====
-- clatto, a user-space SIIT/CLAT translator between IPv4 and IPv6: the translation of packets and the
-- mapping of addresses, modelled from the Go sources.
--
-- The program: a daemon reads packets from a tunnel device and hands each to `Translator.Translate`
-- (internal/xlate), which parses it, asks a `Mapper` for the addresses of the other family
-- (internal/addrmap over internal/netutil), rewrites headers and checksums, and writes the result, an
-- ICMP error or nothing through an `Emitter`, telling an `Observer` what it did.
--
-- Which file models what:
--   Base           what the others share: tests, lists for slices, words, `Result`
--   Netutil        internal/netutil/netutil.go; theorems in Netutil/Embedding
--   Netip          what the code uses of net/netip: addresses, prefixes, containment
--   Xlate/Checksum internal/xlate/checksum.go; the one's complement sum in Checksum/Fold and Sums,
--                  stored and updated checksums in Update, pseudo-headers in Pseudo
--   Xlate/Events   internal/xlate/events.go: kinds, reasons and events
--   Xlate/Packet   internal/xlate/packet.go: `pkt`, its accessors, `estMTU`, and the constants of
--                  translator.go; `parseIPv4` in Parse4, `parseIPv6` in Parse6; theorems in
--                  Headers, Frames4 and Frames6
--   Xlate/Translator, Xlate/Entry
--                  internal/xlate/translator.go: configuration, state, calls of the mapper; `Translate`
--   Xlate/V4       internal/xlate/xlate4.go: Icmp (`sendICMPv4`, `sendICMPv4Error`, `hostICMPv4`),
--                  Header (`header4to6`), Payload (`payload4to6`), Fragments (`xlate4to6Data`),
--                  Errors (`xlate4to6ICMPError`), Handle (`handleIPv4`); theorems in Generated,
--                  Checksums, Echo, Reassembly, Train, Bounds and ErrorPackets
--   Xlate/V6       internal/xlate/xlate6.go, in the same way; `xlate6to4Data` is in Data;
--                  theorems in Generated, Checksums, Echo, ErrorPackets and DataPackets
--   Addrmap/Entry  the entries and the `Builder` of internal/addrmap/table.go
--   Addrmap/Build  `Builder.Build`; theorems in Build/Order and Build/Overlap
--   Addrmap/Pool   internal/addrmap/pool.go: state, bitmap and `lookup4`; `assign` and `lookup6` in
--                  Pool/Assign, `Maintain` in Pool/Maintain, `SetLeases` and the listings in
--                  Pool/Reports, `read` and `write` in Pool/StateFile; theorems in Pool/Scan,
--                  Pool/Leases, Pool/Bitmap, Pool/Maps, Pool/Invariant, Pool/History (sequences of
--                  operations), Pool/Found and Pool/Progress
--   Addrmap/Table  lookups, `MapIPv4ToIPv6` and `MapIPv6ToIPv4`, and `Entries` in Table/Entries;
--                  theorems in Table/Lookup, Table/Mapping, Table/Reserved and Table/Unallocated
--   Netconf        internal/netconf/netconf.go, and the differences of netconf_linux.go
--   Config         internal/config/config.go: the settings; Words and Filters for the parsers,
--                  Draft, SharedAddress, Local, Pools, Routes and Logging for the parts of
--                  `ResolveWith` in its order, Resolve for the whole; theorems in Ports, Progress,
--                  Steps, RouteLaws, RouteOrder, Resolve/Limits, Resolve/Existing,
--                  Resolve/BuiltTable and Resolve/Failures
--   Daemon         internal/daemon/daemon.go: `Apply` and what it calls to save and load the pool;
--                  theorems in Daemon/Outcome, Daemon/Kept, Daemon/Laws and Daemon/Reserved
--   Tests modules  runs on concrete packets, tables and pools
--
-- State and effects. An action is a function on a `World`: the mapper's state, the number of random
-- numbers drawn, and the trace of all that left the translator, newest first. The mapper, the emitter
-- and the random numbers are the parameter `Env`; an emitter may refuse any packet. The observer's
-- events and counts stand in the same trace, so their order with the packets is kept. A handler is cut
-- into functions where the source goes on after a return: each maps to the lines from there on.
-- The table does not change after `Build`; the pool does, and is passed on. The objects that the
-- pool's maps share by pointer are kept once, under their offset.
--
-- `ResolveWith` collects its errors in a `Draft`, which has the variables of the function. The pool of
-- the running configuration, whose lease times and reserved addresses it may change through a pointer,
-- is returned with the result. The functions of the standard library on texts (`ParseAddr`, `ParseInt`,
-- `ToLower` and the like) are the parameters `Texts`, one for the configuration and one for the state
-- file. A panic of `Embed`, at a slice out of range, is one of its errors.
--
-- Numbers are natural numbers; each conversion to a shorter word is written out as a remainder, and
-- the accumulator of `sum16` wraps at 64 bits. The MTUs of a translator are at least 1280, as
-- internal/config requires, so no subtraction of the source goes below zero. A read behind the end of
-- a slice, where Go panics, is 0.
--
-- Loops. `sum16` and the searches recurse on their lists. The loop over IPv6 extension headers has
-- as much fuel as there are bytes, and one more: each round takes at least eight bytes. The loop over
-- fragments has the same, as each takes at least one byte. The hash of the pool folds a number that
-- gets smaller, with that number as fuel. The scan for a free offset counts its rounds down.
--
-- Not modelled: locks and atomics (the operations of the pool run one after another), the names of
-- kinds and reasons, the system calls around the state file, YAML and the environment of the
-- configuration, the calls of netlink, the daemon but for `Apply`, which takes `netconf.Update` and the
-- files as parameters, the administration server, metrics and the tunnel device. `sort.SliceStable`
-- and `sort.Slice` are insertion sorts, and the iteration over a map follows the order of a list.
-- Negative numbers of the configuration, which its checks refuse, and clocks before the lease times do not occur.
pub mod Base
pub mod Netutil
pub mod Netip
pub mod Xlate
pub mod Addrmap
pub mod Netconf
pub mod Config
pub mod Daemon
