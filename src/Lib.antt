-- ===== src/Lib.antt =====
-- A model of yuclase, a persistent message queue in Go, and what is proved of it.
--
-- A topic is a directory: segments of messages (the log), an index of offsets and a JSON file with
-- the offset of every consumer (the catalog). A producer calls `Enqueue`, which appends to the log;
-- a consumer calls `Dequeue`, which reads the log from the consumer's offset and moves the offset.
--
--   Base             Go's bytes, int64 arithmetic, text, maps and error values; the monad of methods
--   Config           internal/config/config.go: records and getters; Config.Size has `parseSize`,
--                    Config.Load `LoadConfig`, its defaults, environment and validation
--   Storage.Disk     the directory and the calls of `os`, with inodes, a clock and failing calls
--   Storage.Segment  the names of segments in pkg/storage/log.go
--   Storage.Log      pkg/storage/log.go: Writer has the buffered writer, `sync` and the offsets,
--                    Segments `NewLog`, `openCurrentSegment`, `rotateSegment`, `Close`, Messages
--                    `Append`, `Read` and `ReadFrom`
--   Storage.Index    pkg/storage/index.go: Entries in memory, File on disk, Rebuild from the log
--   Storage.Catalog  pkg/storage/catalog.go: Consumers in memory, File on disk
--   Topic            pkg/queue/topic.go: State has the lock and the parts, Open `NewTopic`,
--                    `LoadTopic`, `Close` and `Delete`, Messages `Enqueue` and `Dequeue`, Upkeep
--                    `Sync` and `CleanupOldMessages`; History has sequences of calls with restarts
--                    between them, and the feed that they are compared with
--   Queue            pkg/queue/queue.go: State has the lock and the map of topics, Topics the methods
--                    on a topic, Upkeep `NewQueue`, `Sync`, `Close` and `Reset`, Cleanup the goroutine
--                    of `startCleanup` beside `Close`
--   Server           internal/network/server.go: Session has the replies, Commands a handler for each
--                    command, Lines the parser and the loop of `handleConnection`, Life `Stop` beside
--                    `acceptConnections` and the goroutines; Program is cmd/main.go with
--                    `NewServer` and `Start`
--   Client           internal/network/client.go: Connection has the scanner and the writer, Replies the
--                    parser of replies, Requests `SendCommand` and the methods, Terminal the
--                    interactive mode; Program is cmd/cli/main.go
--   Protocol         what server.go and client.go share: Reply has the replies, Request what each
--                    command asks of the queue, Delivery a message from one client to another
--   Consumer         pkg/queue/consumer.go: State has the consumer, its channels and its methods,
--                    Polling `pollMessages` and a tick of `consumeLoop`, Loop that goroutine
--                    beside `Stop`
--
-- A method is a function from a component and the disk to a result and the same state again. The
-- result is a value, an error, a panic or a deadlock; the state comes back beside each of them,
-- since what was written before an error stays written. Every call of the operating system can
-- fail: the disk says which calls do. The locks of a topic and of the queue say whether a method
-- holds them that never returned or that calls another one; a method runs as one step, except for
-- the cleanup goroutine and `Close` of the queue, whose steps interleave in Queue.Cleanup, `Stop`
-- of the server beside its goroutines, in Server.Life, and `Stop` of a consumer beside its loop,
-- in Consumer.Loop.
--
-- Bytes are natural numbers, `int` and `int64` are integers that wrap at 64 bits, and `uint32` sizes
-- are taken modulo 2 ^ 32. A map is an association list, so `range` over it has one order here. The
-- loops of the program are recursion on a list or on fuel: `ReadFrom` gets one round for each byte
-- of the directory, `sort.Search` one for each entry and `scanSegment` one for each byte of the
-- file, which is enough since every round takes a message, half the range or a header.
--
-- A connection is the bytes that it brings and how it ends. A read of a line that does not come is a
-- wait for ever, and a welcome message comes in time or not at all. A line of the scanners of client
-- and server has fewer than 65536 bytes. The length of an array in a reply is the count of rounds that
-- `readArray` makes, and the loop of `handleConnection` runs over the bytes of the connection.
--
-- A JSON file stands for the map that it holds. `yaml.Unmarshal`, the environment, the configuration
-- file and `time.ParseDuration` are parameters of Config.Load. The paths of files and their
-- permissions are not modelled, and neither are the names of clients, the time of their last command,
-- which nothing reads, and the parser of flags.
pub mod Base
pub mod Config
pub mod Storage
pub mod Topic
pub mod Queue
pub mod Server
pub mod Client
pub mod Protocol
pub mod Consumer
