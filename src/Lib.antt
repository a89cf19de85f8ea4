-- ===== src/Lib.antt =====
-- TikREC records public LIVE streams: a resolver finds the stream's address, a capture reads FLV tags
-- from it, a writer cuts them into parts that can be decoded alone, and a service finishes, recovers,
-- watches creators and starts recordings by itself. This library models the program's core.
--
--   Base         shared names, lists over the native numbers, results of calls that raise, dicts
--   Flv          tikrec/flv.py: tags, their wire form, reading from a stream with short reads
--   Writer       tikrec/writer.py and writer_events.py: the loop over the tags, the pending part,
--                its closing, and the calls of the callbacks as a trace of events
--   Text         Python texts as lists of code points, their order, and dicts keyed by them
--   Identity     tikrec/tiktok_identity.py, creator_identity.py: room identities, handles, UUIDs
--   Automation   tikrec/automation.py, automation_jobs.py, automation_state.py and
--                automation_status.py: the coordinator that starts recordings by itself,
--                with its durable claim, crashes, restarts and status
--   Sps          tikrec/flv_codec.py: bits, Exp-Golomb codes, emulation bytes, displayed dimensions
--   Admission    tikrec/admission.py, storage_status.py: which creators could be recorded now
--   Naming       tikrec/output_naming.py: the first free name of an automatic recording
--   Monitor      tikrec/monitoring.py: the polling loop over the configured creators
--   Gaps         tikrec/gap_analysis.py: the gaps between connections, their parts and their classes
--   Retry        tikrec/retry_policy.py: delays, the outage window, waits and exhaustion
--   Network      tikrec/network_errors.py: which exceptions are failures of a network
--   Live         tikrec/live.py with live_support.py, live_recovery.py, live_source.py and
--                live_session.py: the reconnecting capture of one room, over the part writer
--   Jobs         tikrec/job_state.py: the durable intent of one recording
--   Reconcile    tikrec/reconciliation.py: the decisions of a restart on an interrupted job
--   Unattended   tikrec/service.py: the monitor, the admission and the coordinator together
--   Pages        tikrec/recording_safety.py: the public pages that are accepted
--   Manager      tikrec/recording_manager.py and recording_ownership.py: the slots of the service,
--                who owns them, and the calls of the controllers
--
-- How the code corresponds. A byte is a number and a byte string a list of numbers; a time is a whole
-- number of some unit, and in the capture one of seconds. A method that changes its object returns the
-- new object; an exception is the `err` of a result, and the state that it leaves is returned beside
-- it. A stream is the list of the chunks that the connection delivers, a path of a part is the part's
-- index, and the disk answers by functions of the index. Dicts are association lists in insertion
-- order.
--
-- The coordinator's state is `World`: the fields of the object, the state of what it calls, the
-- document on the disk, and a log of its calls of `start`. Controller and admission are the record
-- `Services`, whose state changes at a call of `start` and between the steps of a history. A save
-- returns, raises before the document is replaced, or raises after it; which of the three is read from
-- a schedule. The platform's rules of paths are the record `PathRules`.
--
-- The admission reads its sources at one state of the world. The monitor's loop runs over the answers
-- that its waiter has given; a stop is seen where the code looks at the event.
--
-- A turn of the capture reads what it meets from a record `Turn`: stops, clocks, the replies of the
-- resolver and the stream. The writer is the interface `PartWriter`, whose law the part writer fills
-- (Live/Recorder). A capture whose turns are used up still runs. Lines of the log are written without
-- an exception, the numbers of seconds are natural, and the text of an error is not `connection
-- closed`, which the code reserves for a connection that was closed. A part of a turn that
-- ends in an existing file is not counted, as in the code.
--
-- The manager reads its controllers in the order of the code; what the reads of a slot answer is a
-- record `Reads`, because a worker may change between any two of them. `resolve` and the other
-- operations on paths are the record `Paths`.
--
-- A restart reads what the disk, the finalizer and the resolver answer from a record `Answers`. Its
-- `try` is an action on the variables that the handler reads, which logs each effect that does not
-- raise; a save may leave another job, which was asked to stop meanwhile.
--
-- The numbers of a gap are a parameter with a subtraction; the tests take integers. A wait of the
-- outage policy takes at least the time that was asked for, and the unit of the policy is any in which its
-- numbers, which are floats and so fractions, are whole.
--
-- `read_loop` takes `count` rounds at most, because every round but the last takes a byte; `Reads`
-- and `ReadsExact` have no case for a loop that runs out. `leading_zeros` takes the 31 zeros that the
-- code accepts, `search` the thousand candidates of the code, and `digits_of` one more round than the
-- number, which has fewer digits than that. All other loops are recursions on a list or on the count of
-- a `range`.
--
-- Not modelled here: subprocesses, sockets, locks and threads, the text of messages, and the parts of
-- the program that the manifest lists as such.
pub mod Base
pub mod Text
pub mod Identity
pub mod Pages
pub mod Automation
pub mod Flv
pub mod Writer
pub mod Sps
pub mod Admission
pub mod Monitor
pub mod Gaps
pub mod Retry
pub mod Naming
pub mod Manager
pub mod Network
pub mod Live
pub mod Jobs
pub mod Reconcile
pub mod Unattended
