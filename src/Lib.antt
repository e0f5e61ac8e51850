-- ===== src/Lib.antt =====
-- Servus, a library for service discovery and for the types that its clients share (servus/).
--
-- The parts. `uint128_t` (servus/uint128_t.h, servus/uint128_t.cpp) is `Uint128`: two 64-bit words,
-- each a natural number with its wrap-around written out; `Uint128.Stream` is its `operator>>`, and
-- `Uint128.Words` has the rest of its constructors and assignments, and its archives. `URI`
-- (servus/uri.h, servus/uri.cpp) is `Uri`: `Uri.Data` for the data, its comparison, the setters and
-- the printers, `Uri.Part`, `Uri.Authority` and `Uri.Query` for `_parseURIPart`, `_parseAuthority`
-- and `_parseQueryMap`, and `Uri.Parse` for the loop of `_parseURI` and the constructor.
-- `Uri.Object` is the class `URI`, whose objects are pointers into a heap of their data, with the
-- operations of a program as a step relation; `Uri.Reference` describes the parser a second time,
-- as one walk without positions, loop or fuel; `Uri.RoundTrip` and `Uri.Compare` hold proofs alone.
-- `Servus::Impl` (servus/servus.cpp) is `Service`: the record `Impl` is the data that every
-- implementation keeps, the record `Driver` its virtual functions, and `set` and `discover` are
-- written over a driver. `Service.Result` is servus/result.h with the codes of servus/servus.h,
-- `Service.NoneDriver` is servus/none/servus.h and `Service.TestDriver` is servus/test/servus.h,
-- where a service is named by its address, the objects are a store, and the operations of the
-- process are the constructors of a step relation. `Dnssd` is servus/dnssd/servus.h, with each
-- `select` of its event loop as an element of a list, and `Avahi` is servus/avahi/servus.h, with
-- each `avahi_simple_poll_iterate` as such an element: its callbacks, whether it fails, and the
-- time behind it. `Serializable` is servus/serializable.h and servus/serializable.cpp: the
-- conversions that a subclass overrides are the record `Codec`, and its callbacks are functions on
-- the content; `Serializable.Data` has its binary data on a heap of blocks. `ItemModel` is
-- servus/qt/itemModel.cpp: a tree of instances and their keys, changed by the events that the
-- service sends, and the queries of its views; `ItemModel.Follow` composes it with the test
-- service, `ItemModel.Withdrawn` says what happens where a service of it withdraws, and
-- `ItemModel.Shows` and `ItemModel.Stale` compose it with the service over Avahi. `Facade` is
-- `servus::Servus` itself (servus/servus.cpp): which of the four implementations a service has, and
-- the calls that reach it; `discover` is written over a driver in `Service`, and again in
-- `Avahi.Discover` and `Dnssd.Discover`, where browsing can throw or wait for ever;
-- `Facade.Instances` has its queries and its listeners. `Service.Listener` is servus/listener.h,
-- and `Service.Told` says what the calls of a listener, read in order, tell of the instances of a
-- service; `Avahi.Told` and `Dnssd.Told` apply it to the operations of these drivers, and
-- `ItemModel.Heard` to the model. `Dnssd.TxtRecord` is the interface of the library that keeps the
-- text records.
--
-- Below these stand `Prelude` (Boolean tests, lists over native numbers), `Bytes` (`std::string`
-- and its searches), `StdMap` (`std::map` with string keys, an association list in ascending order)
-- and `Strto` (`strtoull`, `strtol` and the decimal and hexadecimal output of streams).
--
-- Errors. An exception, a failed assertion and used-up fuel are constructors of `Uri.Outcome`; in
-- `Uint128` a failed assertion or an exception is `none`; a use of a dangling pointer is `none` in
-- `Service.TestDriver` and `Uri.Object`, and `fault` in `Serializable`; a loop of `Dnssd` that
-- still waits is `none`, one of `Avahi` is `waiting`, and `Facade.Browsing` has `stuck` for each of
-- these. Fuel: the loop of the URI parser has five rounds, one for each part; that of the query has
-- the length of the query; `make_UUID` has the fuel that its caller gives. The first two are always
-- enough.
--
-- Parameters: the MD5 digest, `std::hash` of a word, the random words of `make_UUID`, the host name
-- of the system, `strerror`, the codes, errors, callbacks and text records of DNSServiceDiscovery
-- (with what its header says of these as the record `Dnssd.TxtRecord.TxtLibrary`), the codes,
-- errors and callbacks of Avahi, with the text list of Avahi, and of Qt `findChild` (with what its
-- documentation says as the record `ItemModel.Finder.FindsChildren`) and the formatting of texts.
-- `isalpha` and `tolower` are those of the C locale. Listeners are assumed not to call into the
-- service that calls them.
--
-- Not modelled: running out of memory; the wire format of a text record of DNSServiceDiscovery,
-- which is its library's, as is whether a pair is taken into one; the copy of MD5 (servus/md5); and
-- the browser application (apps), which is input and output alone.
pub mod Prelude
pub mod Bytes
pub mod StdMap
pub mod Strto
pub mod Uint128
pub mod Uri
pub mod Service
pub mod Avahi
pub mod Dnssd
pub mod Facade
pub mod ItemModel
pub mod Serializable
