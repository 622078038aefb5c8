-- ===== src/Lib.antt =====
-- The Cosmos indexer node of SubQuery: a model of the program's own logic and what holds of it.
--
-- The node fetches blocks from a Tendermint RPC endpoint, wraps them lazily, asks a dictionary which
-- blocks its handlers need, and hands blocks, transactions, messages and events to the handlers of
-- a project. The repository has three packages: packages/node (the node), packages/common-cosmos
-- (manifests and the code generator) and packages/types (the data that handlers see). The classes
-- of the node's core library (@subql/node-core) that they extend are not in the repository.
--
-- Which module models what:
--   Base        lists, tests, decimal texts, the number of JavaScript that heights are, and `Result`:
--               a call returns (`ok`) or throws (`err`), `Fault` being the engine's own TypeError or
--               an Error with its name and message.
--   Value       decoded messages and manifest values: `any` in packages/types/src/interfaces.ts,
--               reads of properties and dotted paths in packages/node/src/utils/cosmos.ts.
--   Chain       the blocks, transactions, messages and events of packages/types/src/interfaces.ts;
--               Chain/Getter the getters that replace themselves by what they decoded.
--   Filter      filterBlock, filterTx, filterMessageData, filterMessages, filterEvent, filterEvents of
--               packages/node/src/utils/cosmos.ts, and baseCustomHandlerFilter of
--               packages/node/src/indexer/indexer.manager.ts.
--   Content     wrapBlock, wrapTx, wrapCosmosMsg, wrapMsg, wrapBlockBeginAndEndEvents and wrapEvent of
--               packages/node/src/utils/cosmos.ts; Content/Lazy the class LazyBlockContent, as explicit
--               state that the six getters pass on.
--   Fetch       getBlockByHeight, fetchCosmosBlocksArray and fetchBlocksBatches of the same file.
--               The order in which requests settle is an argument.
--   Client      decodeMsg, getChainType and handleError of packages/node/src/indexer/api.service.ts,
--               and the error handler of packages/node/src/indexer/cosmosClient.connection.ts;
--               Client/Registry is buildRegistry, Client/Init is init, Client/Safe the class
--               CosmosSafeClient, and Client/Connection how a connection and its RPC client are
--               created.
--   Rpc         packages/node/src/indexer/rpc-clients: Rpc/Http is HttpClient; Rpc/Producer is
--               RpcEventProducer, its state with the listeners it has on the socket's events, a call
--               or an event at a time; Rpc/Websocket is WebsocketClient.
--   Indexer     indexBlockData and the calls it makes, packages/node/src/indexer/indexer.manager.ts: a
--               statement takes the content and the handlers' state to a result and a new pair.
--   Service     fetchChainBlock, toBlockResponse and processFetchedBlock of
--               packages/node/src/indexer/worker/worker.service.ts, indexBlock of
--               blockDispatcher/block-dispatcher.service.ts, and indexBlock, getBlockHeight,
--               getBlockHash and getApi of indexer.manager.ts, in the same folder.
--   Startup     bootstrap of packages/node/src/init.ts, initWorker of indexer/worker/worker.ts,
--               DictionaryService.create of indexer/dictionary.service.ts, and the factory of the
--               block dispatcher in indexer/fetch.module.ts.
--   Dictionary  buildDictionaryQueryEntries, eventFilterToQueryEntry, messageFilterToQueryEntry and the
--               two helpers of packages/node/src/indexer/fetch.service.ts.
--   Project     kinds of data sources and handlers: packages/common-cosmos/src/project/utils.ts,
--               packages/node/src/utils/project.ts, packages/types/src/project.ts.
--   Manifest    the transformation of handlers in packages/common-cosmos/src/project/models.ts,
--               FileReferenceImp and isCosmosTemplates of utils.ts beside it, validateCosmosManifest
--               of packages/common-cosmos/src/codegen/util.ts; Manifest/Rules what the classes of
--               models.ts declare for validation, a function for each class.
--   Loading     SubqueryProject.create of packages/node/src/configure/SubqueryProject.ts, with
--               processNetworkConfig of packages/node/src/utils/project.ts.
--   Processors  packages/node/src/indexer/ds-processor.service.ts, dynamic-ds.service.ts and
--               sandbox.service.ts beside it.
--   Finalized   headers by height: packages/node/src/indexer/unfinalizedBlocks.service.ts and the
--               worker's service in packages/node/src/indexer/worker.
--   Codegen     prepareProtobufRenderProps, prepareSortedAssets, prepareCosmwasmJobs, the functions on
--               paths, generateCosmwasm, generateProto and tempProtoDir of
--               packages/common-cosmos/src/codegen/codegen-controller.ts.
--
-- How they interact: Fetch builds fresh contents, whose getters (Content/Lazy) call the wrappers
-- (Content); the wrappers decode with the client (Client); Indexer reads the getters in its order
-- and passes each item to `index_data`, the core library's indexData, which filters with Filter;
-- Dictionary reads the same manifest filters through Project. Service puts Fetch and Indexer together:
-- from the height of a block to the calls of its handlers. Client/Connection uses the clients of Rpc.
--
-- Conventions. A field that may be absent is an `Option`. Numbers that the chain gives as natural
-- (heights, indexes, codes) are native natural numbers; what `parseInt` returns is a `Number`,
-- which is an integer or NaN: heights stay far below 2^53, where a double is exact. A decoder that
-- throws is a `Result`. A `Promise` is what it settles to. Where several run at once, the order in
-- which they settle is an argument (for the templates of the code generator, forwards or
-- backwards). Logging is left out. Every loop is structural recursion on a list, but for the digits
-- of a number, which have the number itself as fuel: more than its digits. Objects have no
-- identity, so a new client with the parts of another is the same.
--
-- Parameters. Each stands for code that is not in the repository: hashing, hexadecimal text, the
-- protobuf registry and decoders, raw log parsing (ChainLib); `long` and lodash's isObjectLike
-- (ValueLib); JSON.parse and the text decoder (ClientLib); lodash's setWith and uniqBy and the
-- processors of the core library (DictionaryLib; `Uniq` states what lodash documents of uniqBy);
-- paths, the file system and the generators (FileLib, Tools, ContractTools, TempTools); the reader,
-- protobufjs, validation and the core library's loaders (NetworkLib, LoaderLib); class-validator's
-- decorators (ValidatorLib; `Documented` states what its documentation says of optional properties,
-- of nested objects and of properties that are not declared; `Directories` what the calls of the
-- code generator do with directories); validateCustomDs and new sandboxes; indexData on a state of
-- its own; the requests of the client (Api); internalIndexBlock (`IndexesOrSkips` states that it
-- indexes a block's data once, for the active data sources, or ends early without a call of a
-- handler), fetchBlocks (`Relays`: it gives what a connection's fetchBlocks gave) and
-- createConnections (`Creates`: the pool has only connections that were created for an endpoint) of
-- the core library; the class Registry, as an interface with its laws (RegistryLib); JSON.parse,
-- JSON.stringify and JSON-RPC parsing (RpcLib), URLs, and what queueRequest of the socket does. A
-- stream gives an event to its listeners in the order in which they subscribed, and to none that
-- has unsubscribed (`dispatch`).
--
-- Not modelled: data sources that a handler creates while its block is indexed, which the core
-- library appends to the list that the indexer goes through; the getters of decodedTx and
-- decodedMsg inside the wrappers (Chain/Getter models them alone); the modules and services that
-- only wire NestJS together, the command line, the block dispatchers' queues (of the core library),
-- workers' message passing, sockets, class-validator's declarations in versioned/v1_0_0/model.ts
-- and of runtime data sources, templates of generated code and vendored releases of yarn.
-- Inherited properties of JavaScript objects are not part of the model of values.
pub mod Base
pub mod Value
pub mod Chain
pub mod Filter
pub mod Content
pub mod Finalized
pub mod Project
pub mod Dictionary
pub mod Indexer
pub mod Client
pub mod Fetch
pub mod Codegen
pub mod Loading
pub mod Processors
pub mod Rpc
pub mod Service
pub mod Manifest
pub mod Startup
