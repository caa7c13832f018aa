-- ===== src/Lib.antt =====
-- tiedie: an application layer gateway for devices without IP. Applications provision devices over
-- SCIM, control them over NIPC requests, and get their data over MQTT. The gateway reaches the
-- devices through an access point; one kind of access point is a Raspberry Pi that talks to a
-- dongle over a serial line.
--
-- The parts and their files:
--   * Serial: `ZephyrSerialBackend` of pi-ap/zephyr_serial_backend.py, the client of the dongle's
--     line protocol. `State` is the object's state, `Lines` the handling of one line
--     (`_handle_line` and the functions that it calls), `Requests` the commands (`_request`,
--     `connect`, `read`, ...) and `Lifecycle` the port and its users (`acquire`, `release`,
--     `_start`, `_stop`). A request is split at its `await`: `begin_request` runs before it and
--     `finish_request` after it, and `Runs` has histories as lists of steps, so that lines,
--     requests, timeouts and users interleave in any order. `Isolation`, `Invariant`, `Replies`,
--     `Discovery`, `Leaks` and `Transfer` prove.
--   * Sdf: the four functions on SDF references and models of gateway/control.py; `References`,
--     `Paths`, `Namespaces` and `Models` prove.
--   * Ble: the data of gateway/ble_types.py (`Services`, `Characteristics`) and the search of an
--     advertising packet of gateway/silabs/common/util.py (`Advertisements`).
--   * Topics and Publishing: `create_topic_from_event` and `DataProducer` of
--     gateway/data_producer.py. The query for the applications of an event is the call that the
--     code makes, which raises. `Publishing.Delivery` and `Publishing.Results` prove.
--   * AccessPoints: `Contract` is what the docstrings of gateway/access_point.py promise, over an
--     abstract state; `Mock` is that of gateway/mock/mock_access_point.py, and `Mock.Refinement`
--     relates the two over any sequence of calls. `Silabs` is that of gateway/silabs: `Operations`
--     has the classes of ble_operations as a data type and what each does with an event of the
--     radio, `Events` the state and the thread that handles events, `Calls` and `Values` the
--     methods, `Steps` histories of calls and events. Operations are objects that a call and the
--     event thread share, so they stand in a heap. `Keeping` carries an invariant through all
--     methods; `Histories`, `Connecting`, `Refusal`, `Reading`, `Lost`, `Bounds`, `Scanning` and
--     `Unsubscribing` prove.
--   * Server: the gRPC server of pi-ap/grpc_server.py in front of the dongle. `Queues` has the
--     queue of advertisements and the batches of a stream, `Discovery` the assembly of a response
--     from what the dongle found, `Calls` the five requests over `acquire` and `release` of
--     `Serial`, `Dongle` the commands of the backend that they send; `Streams`, `Grouping`,
--     `Outcomes` and `Balance` prove.
--   * Scim: the registry of gateway/scim_extensions.py (`Extensions`), `create_device` of
--     gateway/scim.py over any hooks (`Devices`), the hooks for it of gateway/scim_ble.py
--     (`Pairing`), gateway/scim_ethermab.py (`Ethermab`) and gateway/scim_fdo.py (`Fdo`, with
--     `to_pem` in `Vouchers`), and their list (`Hooks`); `Registering`, `Sessions`, `Building`,
--     `Creation`, `Macs`, `Stores`, `Duplicates` and `Wrapping` prove.
--   * Database: the rows of gateway/nipc_models.py and gateway/models.py that the NIPC handlers use
--     (`Rows`), a table as an interface with its laws (`Tables`), the session of a request with its
--     `commit` (`Session`), and tables in memory that have the laws (`Memory`).
--   * Control: the request handlers of gateway/control.py. `Responses` has requests, responses and
--     problem types; `Requests` runs a handler from the beginning of its session to its end;
--     `Authentication` is `authenticate_user`; `AccessPoint` is the interface of
--     gateway/access_point.py that handlers call; `Connections` has the handlers of connections,
--     `Properties` and `Writing` the reading and writing of properties, `Models` the registration
--     of models, `DataApps` that of data applications with the access list of the broker (`Acl`),
--     and `Events` the handlers of events. `Lookup` is what registrations share. The children of
--     these files prove; `Samples` and the files `Tests` have data, tests and examples.
--   * Json and Python: JSON values as Python treats them, exceptions, results and handlers as
--     actions over a state that may return early; `Python.Guarantees` is a logic for such actions.
--   * Prelude: native numbers, lists, texts and dicts with the operations of Python that the code
--     uses, `binascii` and `base64` among them.
--
-- Parameters: SQLAlchemy's tables (`Table`, with `IsTable` for what the code relies on: what a
-- query finds, that unique columns refuse a second row, and what an insertion, deletion or update
-- keeps), `urllib.parse.unquote`, `uuid.uuid4`, the base URL of a request, whether the serial port
-- can be opened, for the handlers the access point's own operations, for the Silicon Labs access
-- point what the radio answers and what a publication does, for SCIM the rows of devices with their
-- serialization and the answers of the Identity Services Engine and of the owner's server, and for
-- the gRPC server what a request to the dongle does to the backend and how much time a deadline
-- leaves. `Database.Memory`, `Control.Samples` and the files `Tests` have concrete ones.
--
-- Recursion is structural, since most loops of the code run over lists, texts and tables that are
-- given. Two definitions take fuel: the search of an advertising packet takes one round more than
-- the packet has bytes, which is enough because every round passes a byte. `to_pem` takes one round
-- more than the voucher has characters. Numbers of the code are unbounded, as Python's are.
--
-- Not modelled: floats; ids that are no UUIDs, which the database refuses with an error; the texts
-- of messages, titles and details; foreign keys, which only turn some answers of the handlers into
-- errors earlier; logging, sockets, and threads but for the event thread of the Silicon Labs access
-- point and the subscriptions of the mock one: calls of an access point come one after another, and
-- a wait is the list of events that arrive before it is over. A command that the radio's library
-- refuses, the loop of `DiscoverOperation.run` and the scan of the mock access point have no model.
-- Of the gRPC server, `Health` and the stream of connection events have no model, nor has the end
-- of a stream by cancellation. The other handlers of the SCIM server and hooks of its extensions,
-- the gRPC client and the Python SDK have no files here.
pub mod Prelude
pub mod Python
pub mod Json
pub mod Sdf
pub mod Topics
pub mod Serial
pub mod Ble
pub mod Database
pub mod Publishing
pub mod AccessPoints
pub mod Server
pub mod Scim
pub mod Control
