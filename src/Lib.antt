-- ===== src/Lib.antt =====
-- The school bell system (bell/): a scheduler rings the bells of the day over multicast, SIP and
-- webhooks. A library of models of its core, with the theorems that make it correct.
--
-- How the parts interact. The configuration (Config) names zones, destinations, schedules and a
-- calendar. The scheduler (Scheduler, bell/scheduler.py) resolves the bells of a day; at the time of
-- one, `BellScheduler.fire` (Scheduler.Fire) asks the safety checks (Safety, bell/safety.py) and claims
-- the bell in the fire database (Fires, `FireState`) before it transmits. A page takes the one slot of
-- the coordinator (Paging, bell/paging.py), and the delivery (Delivery, bell/delivery.py) gives it to
-- the zone's destinations that the registry of health lets through (Endpoints, bell/monitor.py): to
-- webhooks (Endpoints.Webhook, bell/protocols/http.py), and to multicast groups by the sender
-- (Transmit, bell/transmit.py) in one of two packet formats (Wire, bell/wire/). The receiver's side of
-- the packets is Wire.Rtp.Listen (bell/listen.py). SIP phones are called by Sip (bell/protocols/sip.py):
-- the requests of a call in Sip.Call, the exchange over UDP in Sip.Udp,
-- the reading of session descriptions in Sip.Sdp. All of it is driven by the
-- runtime (Service, bell/service.py): Service.Slot plays an event out, Service.Report keeps what came
-- of it, Service.Health says when
-- the service is ready, Service.Watch is its main loop and Service.Startup its checks before the
-- start. Failures are put into the outbox of alerts (Alerts, bell/alerts.py), which the loop delivers.
-- Accounts (bell/auth.py) are those of the console. Calibration (bell/calibration.py)
-- reads captured Poly packets and derives the channel mapping. Watchdog (bell/watchdog.py) is the monitor from
-- outside, which opens and closes incidents.
--
-- How state and operations correspond. A database table is a list of rows, and a method that is one
-- transaction is a function from the tables to the tables. A lock or condition makes a method, or the
-- stretch of it between two waits, one function on the state; threads and processes are step relations
-- over those functions. Exceptions are the errors of `Result`. Definitions keep the source's names in
-- the spelling of this language; each file's first comment names the code it is about. Times are
-- microseconds, dates are ordinals, a datetime is `Moment` (Dates). The clock, random tokens, the file
-- system, the zone database, SHA-256, sockets and the servers' answers are arguments.
--
-- Bounds and fuel. No definition runs on fuel but `show`, the decimal numeral of a number, whose fuel
-- is above its number of digits. The search of `upcoming_events` is structural in its number of days,
-- the retries of a webhook in the configured number, the sender's loop in the frames.
--
-- Not modelled: the web console's handlers and the wiring of the servers; of SIP the reading of
-- responses and the digest authorization, which are arguments of the call, and the stream transport; audio transcoding, backup, recovery and upgrades, deployment scripts, the
-- validators of single configuration fields, pacing of the sender, logging. They are I/O in the main,
-- or left for a later extension.
mod Prelude
pub mod Dates
pub mod Config
pub mod Safety
pub mod Fires
pub mod Scheduler
pub mod Paging
pub mod Wire
pub mod Calibration
pub mod Endpoints
pub mod Transmit
pub mod Delivery
pub mod Watchdog
pub mod Alerts
pub mod Sip
pub mod Accounts
pub mod Service
pub mod Tests
