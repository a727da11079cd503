-- ===== src/Lib.antt =====
-- A message broker after RocketMQ, in Go: name servers keep the routes of the brokers, brokers store
-- messages in queues, and clients pull them and commit how far they are. This library models parts of
-- it whose behaviour is in their state, and proves what they do.
--
-- Parts, files and sources:
--   Net/Frame.antt        stgnet/remoting/length_field_fragmentation_assemblage.go: `pack` is Pack.
--     A connection's reads go through it before anything is decoded.
--   Client/Allocate.antt  stgclient/consumer/rebalance/allocate_message_queue_averagely.go: `allocate`
--     is Allocate, by which the consumers of a group share the queues of a topic.
--   Client/ProcessQueue.antt  stgclient/consumer/process_queue.go: the messages of one queue that
--     are pulled and not processed; `remove_message` gives the offset that the client commits.
--   Broker/Lock.antt      stgbroker/rebalance_lock_manager.go with stgbroker/rebalance and
--     stgcommon/protocol/body/lock_entry.go: which client of a group may consume a queue. A queue
--     is the address of its MessageQueue, as in the tables.
--   Broker/Offsets.antt   stgbroker/consumer_offset_manager.go and stgbroker/offset_table.go: the
--     committed offsets, whose maps are references that keys may share.
--   Broker/TopicConfig.antt  stgbroker/topic_config_manager.go with stgbroker/table/topic_config_table.go;
--     TopicConfig/Check has msgCheck of stgbroker/abstract_send_message_processor.go, which makes
--     the configuration of a topic that is not there.
--   Broker/SubscriptionGroup.antt  stgbroker/subscription_group_manager.go.
--   Broker/PullHold.antt  stgbroker/pull_request_hold_service.go and stgbroker/longpolling: the pull
--     requests that wait at a queue until a message comes.
--   Broker/Producers.antt  stgbroker/client/producer_manager.go: the connections of the producers.
--   Registry/KvConfig.antt   stgregistry/registry/kv_config_manager.go.
--   Registry/RouteInfo.antt  stgregistry/registry/route_info_manager.go; Slice has the loops that
--     delete from the slice they range over, Register registerBroker, Remove unRegisterBroker and
--     the other removals, Destroy onChannelDestroy and scanNotActiveBroker, Pickup the questions
--     for routes and topics.
--   Store/Buffer.antt     stgstorelog/mapped_bytebuffer.go and stgcommon/utils/byteutil.
--   Store/MapedFile.antt  stgstorelog/maped_file.go and stgstorelog/reference_resource.go: a file that
--     is mapped, with the count of its readers (`hold`, `release`, `shutdown`, `destroy`);
--     MapedFile/Race takes `hold` in its two parts, between which `shutdown` may run.
--   Store/FileQueue.antt  stgstorelog/mapedfile_queue.go: the files of a log by their offsets.
--   Store/Append.antt     stgstorelog/default_append_message_callback.go: `do_append` is doAppend, which
--     makes the record of a message or the blank at the end of a file. Store/Address.antt and
--     Store/Properties.antt have the addresses and the properties in it
--     (stgcommon/message/message_decoder.go).
--   Store/Check.antt      checkMessageAndReturnSize of stgstorelog/commit_log.go, which reads a record.
--   Store/CommitLog.antt  stgstorelog/commit_log.go: `put_message` is putMessage with the mutex; it
--     appends to the last file of the queue and gives the dispatch service the request by which
--     the consume queues are written. Store/LogReads.antt has its reads, Store/Recovery.antt
--     recoverNormally and Recovery/Abnormal recoverAbnormally.
--   Store/ConsumeQueue.antt  stgstorelog/consume_queue.go; ConsumeQueue/Recovery has what it reads at
--     the start and after a cut of the commit log, Store/OffsetByTime.antt its search by time.
--   Store/MessageStore.antt  stgstorelog/default_message_store.go, which joins the log and the queues:
--     `put_message` is PutMessage, `do_dispatch` is doDispatch of
--     stgstorelog/dispatch_message_service.go. Of its modules, Pull has GetMessage and Batch the
--     loop in it, Queues the lookups by offset, Tables the cleaning (without the destruction
--     of the files of a queue) and the recovery of the tables, Ids GetMessageIds and Recover the
--     recovery at the start.
--   Store/IndexFile.antt, Store/IndexHeader.antt  stgstorelog/index_file.go and
--     stgstorelog/index_header.go: the hash index.
--   Common/Flags.antt     stgcommon/sysflag, stgcommon/constant/perm_name.go and
--     stgstorelog/running_flags.go.
-- Base has what they share: tests on numbers, maps as association lists, integers, big-endian words
-- and texts. Tests applies the theorems to concrete inputs.
--
-- Conventions. A Go map is an association list of unique keys, and the order of a range over it is
-- that of the list. A panic and an error are values. A call under a lock is a function of the state.
-- int and int64 are integers or natural numbers without wrap-around, but where the source converts
-- widths the conversion is written out (`of_word`, `to_word`). The loop of `pack` runs on fuel: one
-- more round than the buffer has bytes is enough unless the length field has eight bytes. That of
-- recoverNormally is given a round for each byte of the files and two for each file, that of
-- recoverAbnormally as many again for the file that it reads twice, and the search by time two more
-- rounds than the buffer has bytes. Texts are
-- ASCII. Sets of golang-set, the JSON encoding, the store's least offsets and the subscriptions are
-- parameters, and so are the creation and the removal of files, the checksum, the hash of a key, net.ParseIP and strconv.
--
-- Not modelled: sockets, threads and timers, JSON, logging, the mapping of files into memory (a copy
-- of another library under stgstorelog/mmap), the service of the index, replication, statistics, the
-- processors of the broker but for msgCheck, the managers of consumers, the producers and consumers
-- around the parts above, and the web console.
pub mod Base
pub mod Common
pub mod Net
pub mod Client
pub mod Broker
pub mod Registry
pub mod Store
mod Tests
