-- ===== src/Lib.antt =====
-- nidaro, the household assistant of src/nidaro: what its services store, and what they show of it.
--
-- The program keeps a household's calendar, school data and connections to outside services in a
-- database. Connectors read outside services and return records; services land these in tables and
-- expand the tables into views. Every service stands between the web portal or a scheduled job on
-- one side and repositories on the other. The modules follow these parts:
--
--   Calendar       src/nidaro/calendar: the event rows (models.py, schemas.py: Models), weekly
--                  recurrence (recurrence.py: Zones, Recurrence), CalendarRepository (Repository)
--                  and CalendarService (Service). Anchor, Expansion, Range and Mirror hold the
--                  proofs on recurrence, ranges and the landing of external records.
--   Connectors     src/nidaro/connectors: the tables of cursors, configs and credentials
--                  (models.py, repository.py: Store), ConnectorRegistry, ConnectorService and
--                  ConnectorConfigService (registry.py, service.py: Service), SecretBox and
--                  ConnectorCredentialService (crypto.py, service.py: Credentials). The runner
--                  (runner.py: Runner) lands the records of a sync in the calendar, and the jobs
--                  (src/nidaro/jobs/tasks.py: Jobs) sweep over what is due. Cursors, Sync, Due,
--                  Intake, Secrets, Pending, Rotation, Counts, Sweep and Dispatch hold the proofs.
--   WhatsApp       src/nidaro/connectors/whatsapp: WhatsAppEventRepository (models.py, repository.py:
--                  Staging), with the proof in Once.
--   Google         src/nidaro/connectors/google_calendar: rows and event JSON (models.py: Models), the
--                  identifiers, records and bodies of events (mapping.py: Identity, Mapping, Bodies),
--                  GoogleCalendarClient (client.py, oauth.py: Http, Client), the accounts (accounts.py:
--                  Accounts), GoogleCalendarConnector (connector.py: Connector) and
--                  GoogleCalendarWriteService (writes.py: Writes). Merge, Echo, Tokens, Pages, Landing,
--                  Resume, Steps, Atomic and Writing hold the proofs, CursorText a text for cursors.
--   Icloud         src/nidaro/connectors/icloud_ics.py (the decoding of events: Ics, Events) and
--                  icloud_calendar.py (CaldavIcloudClient: Session, IcloudCalendarConnector:
--                  Connector). Memory, Weekdays and Accepting hold the proofs.
--   Bakalari       src/nidaro/connectors/bakalari_client.py: BakalariClient (Client), with the proofs in
--                  Budget, Requests and Recovery.
--   Chromium       src/nidaro/chromium: ChromiumSupervisor (supervisor.py: Supervisor), with the
--                  proofs in Protocol and Backoff.
--   School         src/nidaro/school: rows and inputs (models.py, schemas.py: Models),
--                  SchoolRepository (Repository) and SchoolService (Service). Subjects, Resolving,
--                  Days and PackList hold the proofs.
--   Meals          src/nidaro/meals: rows, requests and MealsRepository (Kitchen) and MealsService
--                  (Service). Rows, Invariant and Plans hold the proofs.
--   Household      the small tables: src/nidaro/household (Members), src/nidaro/tasks (Tasks),
--                  src/nidaro/commitments (Commitments), src/nidaro/memory (Facts),
--                  src/nidaro/conversations (Conversations) and src/nidaro/jobs/service.py (Jobs).
--                  Laws holds the proofs.
--   Base           what these share: Boolean tests, list functions, exceptions and effects, a table
--                  as the list of its rows, and sorting.
--
-- A method that writes is a function from the state to a result and the state after it. What was
-- written before an exception stays written, as each repository method commits its own transaction.
-- Identifiers, dates (ordinals, of which day 1 is a Monday), times of day and instants (in
-- microseconds where a cadence is counted) are natural numbers. Clock readings and the random salt
-- of an encryption are arguments. A database's ORDER BY is a parameter where its order does not
-- matter, and a stable sort where it does. Integers are unbounded, as in Python.
--
-- The tables of the calendar, the school, the meals and the staged messages have the bounds of their
-- text columns and their foreign keys to households and members: a row that breaks one raises
-- (data_error, integrity_error) and is not written. Of the connector tables and of the small tables
-- these bounds are left out, and texts have no NUL character, which PostgreSQL refuses in any of them.
--
-- Parameters for code outside the repository: the time zone database (Zones in Calendar/Zones.antt;
-- the theorem on ranges supposes that the two days at the ends of the range start at midnight in the
-- household's zone, which clocks that are put back across midnight break), the package cryptography
-- (Fernet in Connectors/Credentials.antt, with the laws of IsAuthentic), httpx (Transport in
-- Google/Http.antt, School in Bakalari/Client.antt), the JSON texts of cursors (CursorJson in Google/Connector.antt,
-- StateJson in Icloud/Connector.antt), caldav (CalDav in Icloud/Session.antt), icalendar (Component
-- in Icloud/Ics.antt), chrome_agent (Environment in Chromium/Supervisor.antt), and
-- the outside services, which are any action on a world of any type.
--
-- Loops are structural recursions on the lists they read. The search for the first wanted weekday
-- runs on fuel for seven days, and a theorem shows that the result is found within these. The pages of
-- a Google listing run on fuel too, and a theorem shows that as much fuel as there are pages is enough.
-- The supervisor may run for ever: its model makes any number of rounds.
--
-- Not modelled: the web portal (pages and forms) and the assistant (glue around the language model
-- package); the mapping and the sync of the connector for Bakalari and the drain of the WhatsApp
-- connector; the wiring, the settings and the seed data, which have no logic of their own.
pub mod Base
pub mod Calendar
pub mod Connectors
pub mod WhatsApp
pub mod School
pub mod Meals
pub mod Google
pub mod Icloud
pub mod Bakalari
pub mod Household
pub mod Chromium
