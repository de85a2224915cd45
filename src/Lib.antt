-- ===== src/Lib.antt =====
-- FlexPS, a parameter server: worker threads add to and get from tables that server threads hold,
-- and clocks bound how far the workers may drift apart.
--
-- A request of a worker goes through these parts, which pass messages over queues:
-- * a table of the worker cuts its sorted keys into one part for each server thread
--   (Worker/RangeManager.antt: worker/simple_range_manager.hpp);
-- * the table sends the parts, and puts the replies together (Worker/TableBox.antt:
--   worker/kv_table_box.hpp), which its own thread takes (Worker/SimpleTable.antt:
--   worker/simple_kv_table.hpp) or the helper thread of the node (Worker/ClientTable.antt:
--   worker/kv_client_table.hpp); the table of a sparse SSP model sends its requests some iterations
--   ahead, and its clocks with them (Worker/SparseTable.antt: worker/sparse_kv_client_table.hpp);
-- * a server thread takes messages from its queue and gives each to the model that it names
--   (Server/Thread.antt: server/server_thread.cpp, over the interface AbstractModel of
--   Server/Model.antt: server/abstract_model.hpp);
-- * the model reads or changes its storage, now or later: at once (Server/Asp.antt:
--   server/asp_model.cpp), at the end of a round (Server/Bsp.antt: server/bsp_model.cpp), or once
--   the slowest worker is near enough (Server/Ssp.antt: server/ssp_model.cpp). They share the clocks
--   of the workers (Server/Tracker.antt: server/progress_tracker.cpp), the buffer of requests that
--   wait (Server/PendingBuffer.antt: server/pending_buffer.cpp), the start of a new task
--   (Server/Reset.antt: the method ResetWorker of each model) and the storages (Server/Storage.antt:
--   server/abstract_storage.hpp, with MapStorage and VectorStorage in files below it:
--   server/map_storage.hpp and server/vector_storage.hpp);
-- * a sparse SSP model (Server/SparseSsp.antt) lets a Get run ahead of the slowest worker if no
--   slower worker uses its keys, which its recorder tells (Server/Recorder.antt and the files below
--   it); both are in server/sparsessp/;
-- * the helper thread of a worker's node counts the replies and runs the callbacks of the table
--   (Worker/Blocker.antt: worker/app_blocker.cpp and worker/worker_helper_thread.cpp).
-- The engine gives out the thread ids (Driver/IdMapper.antt: driver/simple_id_mapper.cpp) and
-- records which thread runs which worker (Driver/WorkerSpec.antt: driver/worker_spec.cpp;
-- Driver/Engine.antt: driver/engine.cpp). The blocks of input files are handed out to the workers by
-- Io/Assigner.antt (io/hdfs_assigner.cpp). Applications draw batches of data with Data/Sampler.antt
-- (lib/batch_data_sampler.cpp). The nodes are read from a file (Nodes.antt: base/node_util.cpp);
-- their mailboxes pass the messages between them and have a barrier of all nodes, which is a step
-- relation on the states of the whole system (Comm/Mailbox.antt and Comm/Barrier.antt:
-- comm2/mailbox.cpp). Values are written to and read from streams of bytes (Serialization.antt:
-- base/serialization.hpp). Messages and queues are in Message.antt (base/message.hpp and
-- base/threadsafe_queue.hpp).
--
-- State is a record with the fields of the class, and a method is a function from the message and
-- the state to the messages that it pushes, in their order, and the new state, or to `none` where
-- the source's CHECK fails or it reads what is not there. Locks are not modelled: a step is one
-- message. A `std::map` is a list of entries in the order of its keys (Base/Dicts.antt); an
-- unordered one is too, and where the code reads the first element of one, that is a parameter.
-- `uint32_t` arithmetic that can wrap is written with its modulus (Base/Words.antt); the `int`
-- clocks of the tracker are natural numbers, so the model stands for runs of fewer than 2^31 clocks.
-- The Clock of a sparse SSP model calls itself on the clocks that it has kept, to a depth that is
-- its fuel; 2, which a server thread gives it, is enough where these are of threads ahead of the
-- minimum. The search of a file for its blocks moves on by the block size; its fuel is the size of
-- the file, enough if the block size is not 0. Nothing else needs fuel: the loops run over lists or
-- count down to zero.
--
-- `SArray`, its views as other types, its segments and `FindRange` (base/third_party, a copy of
-- ps-lite) are the parameters `Platform` and `Values` of Message.antt, with what the code relies on
-- of them; so is the representation of values in memory (`Plain` and `SizeType` of
-- Serialization.antt).
--
-- Not modelled: the sockets, the start and the stop of threads, and the mailbox of comm/, an earlier
-- form of that of comm2/; the other HDFS input; the examples and the launch scripts.
pub mod Base
pub mod Message
pub mod Nodes
pub mod Server
pub mod Worker
pub mod Driver
pub mod Comm
pub mod Serialization
pub mod Io
pub mod Data
pub mod Tests
