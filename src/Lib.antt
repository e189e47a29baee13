-- ===== src/Lib.antt =====
-- ipp-printer-app: the framework of a network printer application that speaks IPP, modelled and verified.
--
-- The program keeps a registry of printers and a registry of jobs behind locks. `handle_ipp` (src/server.rs)
-- answers one request: it checks the version, the order of the first attributes on the wire, the request id
-- and the target, and dispatches to an operation, which reads and writes the job registry (src/job.rs),
-- builds its answer (src/attributes.rs) and may spawn a print worker. A worker (`spawn_print_worker` in
-- src/server.rs) drives one job to its end, holds it while the device is unavailable, and writes the printer's
-- state. The status poller (src/status.rs) asks idle and stopped printers for their status, learns the
-- loaded media (src/printer.rs), follows reachability with the discovery adverts (src/mdns.rs), and stores the
-- configurations (src/state.rs). At start-up the stored printers are merged with the devices that the backend
-- finds, and a web form lets an operator set the loaded media (both src/server.rs).
--
-- Files:
--   Base, Texts: shared helpers; native lists, signed integers, decimal texts.
--   Flags: `PrinterReason` of src/flags.rs, a set of bits as a number.
--   Job: `JobRegistry` of src/job.rs. A locked method is one step. The shared atomic flag of a job is a cell of
--     the registry. Job.History runs any sequence of its operations; Job.Table is an abstract table of jobs.
--   Device, Raster: the data of src/device.rs and src/raster.rs, and the defaults of their traits.
--   Printer: `PrinterConfig`, `PrinterRecord`, `set_ready_media` of src/printer.rs.
--   State: src/state.rs, and `Server::persist`.
--   Ipp: the vocabulary of the `ipp` crate. The crate's functions are the fields of `IppCrate`, an argument;
--     `IsFaithful` says that `new_response` succeeds with the header it is given.
--   Attributes: src/attributes.rs. Jobs has the job groups, Media the media collections and margins, Clock the
--     dates, Printer the printer description, Filter the reading of a filtered response.
--   Server: the shared state of src/server.rs. Request has the extractors, Wire the check of the raw bytes,
--     Handler, Operations and Dispatch the branches of `handle_ipp`, Worker the print worker, Startup the merge
--     of `bootstrap_printers`, the queue names and `Server::run`, MediaForm the form for the loaded media, Pages the
--     other pages.
--   Status: src/status.rs over the trait `AdvertiserControl`, an interface with the laws that the poller relies on.
--   Mdns: `Advertiser` of src/mdns.rs, which fills that interface (Mdns.Control), over `MdnsCrate`, the calls of the
--     crate mdns-sd. `IsDaemon` (Mdns.Live) states what the crate documents of the services that its daemon answers
--     for; Mdns.Rounds runs the poller on the advertiser, Mdns.AllowList reads the list of interfaces.
--   System: the tasks that `Server::run` starts, over the state that they share. An event is a request, the change
--     that a form makes, a step of a print worker, a part of a round of the poller, or the snapshot or the write of a
--     save; Reach relates a state to those that events lead to. Driving and Settling say which task still has a job to
--     bring to its end, Spawned which tasks a request starts, Invariant and Reached what holds in every reachable
--     state, Printers and Persisted what the tasks leave of the printers and of the file, Adverts of the adverts,
--     Restart what the next start makes of that file; Projection and Simulation show that each task sees the others as
--     Server.Worker.Interleaving has them.
--   Example: examples/minimal_server.rs.
--   Tests: concrete data, and each theorem with hypotheses applied to it.
--
-- Concurrency: the worker is a machine whose steps are its single accesses to shared state, and other tasks run
-- between two steps (Server.Worker.Interleaving.Run). A request handler is one step, and so is one answer of a
-- status poll. Status has the poller on its own, as a list of rounds, each with what other tasks did before it; the
-- media form takes what other tasks do while its hook is awaited as an argument. In System all of these tasks run together: there a
-- round of the poller is its snapshot, its answers one by one, and its end, with any other events between them.
-- `Server::persist` reads the registry of printers under its lock, and writes the file after it has let go of the lock:
-- in the worker these are the phases `save` and `write_out`, in System `finish_round` and `save_round` of the poller, and
-- `read_save` and `write_save` of a form, after the change that `submit` makes. `persist_state` and `set_media` join the
-- parts for a form that runs with nothing between them. Persisted says which snapshots are still to be written.
--
-- Fuel and bounds: `first_names` (Wire) makes at most as many rounds as the request has bytes, since a round
-- moves the index by five or more. `show` prints at most 20 digits, which every 64-bit number fits. Job ids are
-- 32-bit numbers and wrap past 0 as in the code; what is said of ids holds while fewer than 2^32 jobs were
-- created. Casts to i32, u16 and u8 keep their wrap-around.
--
-- Not modelled: the parsing and printing of IPP messages (the `ipp` crate), conversions into bounded text types
-- that panic on over-long texts, logging, the ticking of clocks, the matching of HTTP routes and the listener
-- (axum, tokio), multicast DNS itself with its renaming of services on conflict (mdns-sd), and the JSON and file
-- system under src/state.rs.
pub mod Base
pub mod Flags
pub mod Job
pub mod Device
pub mod Raster
pub mod Tests
pub mod Texts
pub mod Example
pub mod Mdns
pub mod Printer
pub mod State
pub mod Server
pub mod Status
pub mod System
pub mod Ipp
pub mod Attributes
