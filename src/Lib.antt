-- ===== src/Lib.antt =====
-- xray-rs: a proxy server that speaks VLESS, Trojan, VMess, SOCKS5 and more, routes what its clients
-- ask for and accounts for it. This library models the server's own logic over bytes and states; what
-- the operating system, the async runtime and the cryptography do is a parameter or left out.
--
-- The parts and their files. A name here is the source's in its spelling, `Type::function` becomes
-- `function` in the module of the type.
--   Base                     the standard library's lists, texts, numbers and maps that the code uses;
--                            `str` is its UTF-8 bytes, `HashMap` an association list (Base/Dict)
--   Kernel/Error, Cursor     kernel/src/error.rs; the readers of kernel/src/net.rs, with `IsStream`,
--                            what a decoder must keep for a stream that calls it again
--   Kernel/Net               kernel/src/net.rs: addresses, destinations, the address codecs
--   Kernel/Translation       kernel/src/pipe/translation.rs: a header read off a connection
--   Kernel/Route             kernel/src/route/rule.rs and balance.rs: conditions, rules, balancing
--   Kernel/Route/Sniff       kernel/src/route/sniff.rs: the name that a TLS hello or an HTTP request asks
--                            for
--   Kernel/Stats             kernel/src/stats.rs, with the report of the counters to the panel in
--                            saas/src/controller.rs, user_info_monitor
--   Kernel/Uuid              kernel/src/uuid.rs: the text of a UUID
--   Kernel/Service           kernel/src/runtime/service/mod.rs: services that are swapped while they
--                            run, nodes that swap when their configuration changes, the tree of nodes
--                            by key; the watch channel between the two sides is an interface
--   Kernel/Dispatch          kernel/src/pipe/outbound.rs and kernel/src/runtime/tree.rs: the outbounds by
--                            tag, and which of them a decoded flow runs through
--   Proxy/Vless, Trojan      proxy/src/vless.rs and trojan.rs: users and request decoders
--   Proxy/Mux                proxy/src/mux.rs: the frames, and the loop that serves a carrier
--   Proxy/Udp                proxy/src/udp.rs: datagrams framed on a stream
--   Proxy/Socks              proxy/src/socks.rs: the handshake and the datagrams
--   Proxy/Crypto             proxy/src/crypto.rs: the counting nonce, the key of a password
--   Proxy/Framed             proxy/src/io.rs, relay_framed: both directions over any codec of chunks
--   Proxy/Shadowsocks        proxy/src/shadowsocks.rs: users, the decoder of a flow, the codec of its
--                            chunks, the datagrams
--   Proxy/Vmess/Body         proxy/src/vmess/body.rs: the codec of the chunks of a VMess flow
--   Proxy/Vmess/Users        proxy/src/vmess/user.rs: whose authID it is
--   Proxy/Vmess/Replay       proxy/src/vmess.rs: the filter of authIDs that came before
--   Proxy/Vmess/Inbound      proxy/src/vmess.rs: the inbound's state, and read_header up to the
--                            sealed header, over the users and the filter
--   Proxy/Vmess/Kdf          proxy/src/vmess/crypto.rs: the checksum, the key derivation, the sealing
--   Proxy/Vmess/Header       proxy/src/vmess/header.rs: the request in the sealed header
--   Proxy/Vmess/Flow         proxy/src/vmess.rs: read_header and decode, over all of these
--   Proxy/Http               proxy/src/http.rs: the head of a request, its account, the tunnel and the
--                            request that is rewritten
--   Proxy/Relay              proxy/src/io.rs: the hash of a user, the sniffed target
--   Proxy/Outbound           proxy/src/outbound.rs: the outbounds and how they are made
--   Saas/Egress              saas/src/egress_config.rs and egress_compile.rs: an egress configuration, as
--                            the TOML library makes it, to a route table and a list of outbounds
-- The proxies read their requests with the codecs of Kernel/Net by the reader of Kernel/Translation;
-- the theorems on their decoders are what that reader asks of a decoder. Shadowsocks and the VMess body
-- are codecs for the relay of Proxy/Framed, by the agreement that Proxy/Framed/Codec asks of a codec.
--
-- State. A decoder takes the bytes and gives a value with the bytes that are left (`&mut Bytes`). A
-- connection is the sequence of what its reads return, so every way to cut a stream is a list of reads.
-- The demultiplexer's state is its map of sessions and a list of effects on channels, the last first;
-- the tasks behind a channel are not modelled, and a cancelled session stops between two rounds. The
-- balancer's cursor is passed on, and each random number is an argument. A traffic counter is shared, so
-- the counters stand in a store by number, and one operation on them runs at a time; the replay filter
-- is behind a lock in the code and is passed on here, and so is the rest of the VMess inbound's state.
-- A connection of chunks is the bytes up to its end, what is written a list of bytes, and a link what is
-- sent into it. Of a cipher it is asked that it opens what it sealed and adds 16 bytes; the mask stream
-- of SHAKE128 is a function of its seed and a place. A cancellation token is a number, and a handle
-- keeps the numbers that it cancelled.
--
-- Bounds. Integers are natural numbers; a `u8`, `u16` or `u64` keeps its wrap-around where the code
-- wraps (the balancer's cursor, `put_u16`, the traffic counters). The demultiplexer runs
-- on fuel, and each round takes at least two bytes off the carrier, so fuel of one more than the
-- carrier's length is enough. The uplink of a framed relay runs on fuel above the bytes on the wire, the
-- key of a password on its length, the cutting into chunks on the length of what is cut, and the drain
-- of a watch channel on 2, since such a channel keeps one slot, and the digits of a number on the number
-- itself. Every other loop is recursion on a list.
--
-- Not modelled: sockets, TLS, timers, logging, printing, the HTTP panel client, the
-- transports with the transport service of the dispatch tree, what an outbound does with a stream, the
-- configuration files and the rest of the panel's controller; of a relay the idle timer, its counters
-- and the race of its two directions.
pub mod Base
pub mod Kernel
pub mod Proxy
pub mod Saas
