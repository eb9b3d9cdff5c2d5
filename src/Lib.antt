-- ===== src/Lib.antt =====
-- A model of doze-sdk: the Go library that doze's host and its engine modules share.
--
-- The program's parts and the files that model them:
--
-- modindex/ is the signed index of a module's releases and the choice of the release that a host
-- runs. Modindex/Index.antt has the records and `Parse`, Modindex/Version.antt the version texts,
-- Modindex/Select.antt `Select`, `SelectFor` and `Supports`, and Modindex/Signing.antt
-- `CanonicalPayload`, `Sign` and `Verify` over the values that are encoded as JSON.
--
-- Texts are lists of bytes (Prelude/Texts.antt), since the code walks its strings. What the code uses
-- of Go's strings and strconv is in Strings.antt and its children; case mapping is that of ASCII text.
-- A Go map is an association list (Prelude/Maps.antt), walked in its own order: a theorem for every
-- such list is one for every iteration order. A Go int is a ℤ.
--
-- engine/ is the contract between the host and the drivers. Engine/Route.antt and
-- Engine/Network.antt have the routes and `ValidateNetwork` of engine/network.go,
-- Engine/Resolve.antt has `ResolveVia` over a Locker and a Fetcher, which are parameters,
-- Engine/Types.antt the records they share. Engine/Template.antt has `EnsureTemplateDir` of
-- engine/template.go as the steps of boots that run at the same time. Engine/Helpers.antt has the
-- version gates, target triples, `ClearStaleLock` and `ProcessAlive`, the registry of drivers and
-- the categories of engine/version.go, engine/platform.go, engine/stalelock.go, engine/registry.go
-- and engine/category.go; Engine/Describe.antt what a driver says of itself.
--
-- binaries/ is the lockfile and the download of binaries. Binaries/Lock.antt has `Lock` and its
-- methods, with the download pins; Binaries/Lock/File.antt has `LoadLock` and `Save` over a YAML
-- reader and writer and the outcomes of the file system; Binaries/Lock/Locking.antt makes the
-- lockfile a Locker. Binaries/Mirror.antt has the manifest of the mirror of engine binaries and
-- what the Manager asks of it, Binaries/Cache.antt `Ensure` and `EnsureArtifact` with the cache of
-- toolchains, and Binaries/Download.antt `EnsureDownload` with the cache of downloads;
-- Binaries/Extract.antt has the walk over an archive's entries. The network, the environment, the
-- digest, the signature scheme, the readers of archives and how each call of package os ends are
-- parameters, and the caches take what an archive unpacks to as one.
--
-- plugin/ is the boundary between the host and a module's process. Plugin/Proto.antt and
-- Plugin/ProtoConsole.antt have the messages, Plugin/Conv.antt, Plugin/Answers.antt and
-- Plugin/Screens.antt the conversions of plugin/conv.go. Plugin/Server.antt has the handlers of
-- plugin/server.go, Plugin/Adapter.antt and Plugin/Adapter/Wrapping.antt the host's driver of
-- plugin/adapter.go, Plugin/Rpc.antt what both rely on in gRPC, and Plugin/Connection.antt the two
-- sides joined. Plugin/Resolving.antt has Resolve of both sides with the locker of the module and
-- the fetcher of plugin/fetch.go, for a driver whose Resolve is a parameter;
-- Plugin/Resolving/Whole.antt takes one that calls `ResolveVia`. Plugin/Diag.antt has the
-- diagnostics of plugin/diag.go, and Plugin/Decode.antt `DecodeConfig` and `DecodeRemote`, where
-- hcl's parser is a parameter. Plugin/Tail.antt has the loops of `Tail` and `tail` as steps that
-- interleave. Plugin/Manager.antt is the Manager of plugin/manager.go, whose launches and whose
-- processes' lives are given by a World. A driver is the record of Engine/Driver.antt: a method
-- gives how it ends at the time of the call. gob, ctyjson and gRPC are parameters. A nil slice or
-- map is an empty one, as the wire has it, and a text is taken to be valid UTF-8.
--
-- plugin/wire.go and plugin/wireserver.go are Plugin/Wire.antt: `Handoff` is a loop over the lines
-- that a module's side says, `handle` is such a side, and `talk` is their dialogue;
-- Plugin/Wire/Registry.antt is the registry of cancel keys, where the random draws of `Register`
-- are a list, its bound: as many draws with a nonzero head as the registry has keys, and one more,
-- are enough.
--
-- modtool/ builds and publishes modules. Modtool.antt has `validate`, `engineMajors` and what
-- `mergeIndex` makes of an index, Modtool/Publish.antt `Build`, `WriteMeta` and `Release` on the
-- files of one module directory, Modtool/Meta.antt what meta.yaml holds; Modtool/Selected.antt
-- joins it to `Select` of modindex/ and Modtool/Platforms.antt to `targetTriple` of engine/. The
-- compiler, YAML, tar with gzip and SHA-256 are parameters, as is how each call of package os ends.
--
-- console/ is Console.antt, each call as a function; the nodes that it builds cross the wire by the
-- conversions of Plugin/Screens.antt.
--
-- Not modelled: the checks of Tail before its loops, the passing of a descriptor and the copying of
-- bytes in the handoff of a connection, the launch of a module's process, enginetest/, the example
-- modules, the progress lines of modtool/, and the search for bin/ in an unpacked archive of
-- binaries/. Symbolic links are not followed in the walk over an archive.
pub mod Prelude
pub mod Strings
pub mod Modindex
pub mod Engine
pub mod Binaries
pub mod Plugin
pub mod Modtool
pub mod Console
