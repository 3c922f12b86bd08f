-- ===== src/Lib.antt =====
-- The Go program of this repository: a public WebTransport echo server (main.go, observe.go,
-- proxy.go, pages.go) and its second build on an older library (legacy/main.go, legacy/observe.go).
-- Both run the same handlers; where they differ, legacy adds a flag for the flow-control probe,
-- and the model takes that flag.
--
-- How the parts interact. A client reaches an endpoint over QUIC. The handler of "/echo" finds the
-- client's address, writes down that it came, takes a slot from the budgets, upgrades, and starts
-- the echo loops, which charge every byte to the session and to the day. A page server answers
-- over TCP, behind a proxy that may name the client in a PROXY header; it serves the pages, the
-- published hashes, and what the endpoints wrote down about the address that asks. Both programs
-- mint their certificates at boot; main.go keeps a CA in two files, and legacy/main.go publishes the
-- hashes of its leaves in files that the page server of main.go reads.
--
-- Files, and the code that each models:
--   Base, Base/*        shared names; bytes, Go's int64 with its wrap-around, list lemmas
--   Strings, Strconv    what the program uses of the standard library's packages of these names
--   Net, Net/*          net.ParseIP, IP.String, IP.To4, IP.IsLoopback, net.SplitHostPort and
--                       net.JoinHostPort
--   Counts              map[string]int, an association list
--   Budgets, Budgets/*  budgets of main.go: roll, acquire, release, spend; a history of calls
--   Session, Session/*  serveEcho: the goroutines of one session as a step relation
--   Stream, Stream/*    echoStream: the loop of one stream
--   Endpoint, Endpoint/*  the handler of "/echo", and acquire of legacy/main.go
--   Proxy, Proxy/*      proxy.go: readFull, readProxyHeader, readProxyV1, readProxyV2, proxyConn
--   Address, Address/*  addressOf of main.go, normalizeAddress of observe.go
--   Client, Client/*    clientAddress of observe.go
--   Observe, Observe/*  observer.record, newObserver and readObservations of observe.go, and the
--                       copies in legacy/observe.go
--   Hosts, Hosts/*      splitComma and addHosts of main.go
--   Pages, Pages/*      pages.go with hashAssets, and the handler of the page server in main.go
--   Server, Server/*    a whole process: the handlers of its listeners and their sessions over one
--                       budgets, interleaved, in main.go and legacy/main.go
--   Watch, Watch/*      what watch.record writes down of an event, and the page that reads it back
--   Files               the files of a directory by their paths
--   Certs, Certs/*      newTemplate, mintWTCert, loadOrMintCA, mintPageChain and the modes of
--                       main.go, mintLeaf of legacy/main.go
--   Lab, Lab/*          main of main.go, from its flags to its servers, and the process on them
--   Legacy, Legacy/*    main of legacy/main.go, from its flags to its listeners, and to the error of
--                       one of them that ends it
--   Examples/*          the theorems at concrete inputs
--
-- State is passed explicitly: a method that holds the mutex of budgets or of an observer from its
-- first line to its last is one function of that state. Goroutines of a session interleave in any
-- order; each step is one access to what they share. The loop of one stream is also run by itself, with the callback of its session. Readings of the clock, what the file system does, the
-- outcome of an upgrade and the chunks in which bytes arrive are arguments. A boot is a function of
-- the files, with a result for what log.Fatal and a nil pointer end. Strings are lists of byte
-- values. An int64 is a bit pattern below 2 ^ 64; where a theorem needs exact sums,
-- its hypothesis bounds the bytes by 2 ^ 63.
--
-- Bounds and fuel. The loop of splitComma runs on the number of its rounds, one more than the
-- length of the text, which is how often the source's loop runs. The loop over the groups of an
-- IPv6 text runs at most eight rounds, for eight groups fill an address. Every other loop is
-- structural. JSON is an interface with laws (Observe.Json): what is marshalled reads back, on one
-- line. Equal times keep their order when observations are sorted, which Go leaves open.
--
-- Keys, signatures, digests and encodings are an interface (Certs.Crypto) with two laws: what is
-- encoded as PEM is decoded, and what a key is marshalled to parses as that key.
--
-- Not modelled: the parsing of flags, the sockets, logging and the qlog directory, html/template,
-- the asset server, and the libraries quic-go, http3 and webtransport-go; the endpoint under rust/
-- is another program.
mod Base
pub mod Net
pub mod Strconv
pub mod Strings
pub mod Address
pub mod Hosts
pub mod Proxy
pub mod Counts
pub mod Budgets
pub mod Endpoint
pub mod Stream
pub mod Session
pub mod Server
pub mod Watch
pub mod Observe
pub mod Client
pub mod Pages
pub mod Files
pub mod Certs
pub mod Lab
pub mod Legacy
mod Examples
