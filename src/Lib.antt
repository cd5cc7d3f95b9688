-- ===== src/Lib.antt =====
-- A verification library for the server of Meals (backend/app): a household plans meals, the server
-- keeps one shopping list for what they need, and a deployment may put limits on what a household
-- keeps.
--
-- The parts, and where they are modelled:
--   Models        backend/app/models: a record for each table, and Db, the record of the tables. Every
--                 operation takes the database and returns the one it leaves. A list holds the rows of
--                 a table in the order of insertion. Ids are numbers; `uuid4 n` is the n-th id drawn.
--   Limits        backend/app/limits.py: Tiers (the tables of numbers), Settings (overrides and the
--                 check at startup), Counting (the counters), Enforce (tier, verdict, enforcement and
--                 GET /limits), Instance (registrations), Ingest (the monthly quota).
--   Entitlements  backend/app/services/entitlements.py: grant, extend, revoke and the reported state.
--   Merge         backend/app/services/ingredient_merge.py: folding duplicates into one ingredient;
--                 Weights, Waiting and Contributions are about its loop over the lines.
--   Dunning       backend/app/services/dunning.py: the notices that are due, and a run that sends them.
--   Billing       backend/app/services/billing.py: Signature (who signed), Payload (what was sent, and
--                 Parse, which reads it), the root (applying an event, with its ledger), and Webhook
--                 (the way from the bytes to the database). Credit and Deliveries hold the abstract
--                 effect of events; Overlap is about two deliveries at once.
--   Accounts      backend/app/services/accounts.py: deleting accounts and moving between households;
--                 Tables are its deletes with the cascades of the foreign keys.
--   Auth          backend/app/routers/auth.py and backend/app/deps.py: RateLimit (the window of
--                 attempts), Security (backend/app/services/security.py), Service (the schemas),
--                 Sessions (tokens and passwords), Guests (registration), Households (members and
--                 invitations), Requests (a request behind its dependencies).
--   Catalog       backend/app/services/catalog.py: get_or_create_ingredient.
--   Shopping      backend/app/services/shopping.py: the contributions of meals and of ad-hoc lines;
--                 Requests is backend/app/routers/shopping.py.
--   Plans         backend/app/routers/plans.py: the requests on plans and their meals.
--   Cooking       backend/app/services/cooking.py: the history of what was cooked and its counters.
--   Freezer       backend/app/services/freezer.py and backend/app/routers/freezer.py: the batches.
--   Supermarkets  backend/app/services/supermarkets.py: the order of the aisles.
--   Amounts       the arithmetic of the quantities, a parameter: quantities are floating-point numbers
--                 in the code, and nothing here relies on a law of theirs.
--   Tests         runs at concrete inputs.
--
-- How the parts interact: a request names a household; what it writes is first put to
-- Limits.Enforce, which reads the household's tier through Entitlements' dates and counts the rows of
-- the database; the meals of a plan contribute to the lines of the active
-- list in Shopping, a meal that was cooked is recorded by Cooking, and a name that is added to the
-- list goes through Catalog. A payment reaches a household through Billing, which calls
-- Entitlements.grant; a request of Auth is charged to the caller's window, resolved to a user and
-- handed to its handler, which moves people and deletes what they leave through Accounts; Dunning
-- reads the dates that Entitlements wrote and the lead that Accounts keeps.
--
-- Instants are numbers of microseconds, in UTC, and dates numbers of days. A clock is given with the
-- first instant of its month. The numbers of the limits and the days of an extension are integers, as
-- settings and callers may give negative ones. All loops of the code run over lists, and are
-- recursions on them, so no fuel is needed.
--
-- Parameters: the identity of a name (canonical_ingredient_name, guess_aisle and the text functions of
-- Python), the draw of ids, the arithmetic of the quantities, the cryptography (bcrypt, hashlib and
-- secrets), the conversions of json, datetime and uuid, the tables of Unicode that upper-casing reads,
-- and the relay of mails.
--
-- Columns: the stamp `updated_at` of a recipe is set where a flush finds its counters changed, at one
-- instant for each request. The stamps `created_at` of all tables, and `updated_at` of the rows of the
-- freezer and of the shopping list, are not in the records: what is said of a whole database is said
-- of the columns that are. The days of grace and of warning in the settings have no lower bound in
-- backend/app/config.py, and are taken as not negative.
--
-- Not modelled: the sentences of the refusals, logging, HTTP itself, the transactions of the database
-- (each request runs alone, but for the overlapping deliveries of Billing), the checkouts and the
-- portal of the payment processors, the parser of recipes, and the clients.
pub mod Prelude
pub mod Models
pub mod Limits
pub mod Entitlements
pub mod Amounts
pub mod Catalog
pub mod Shopping
pub mod Cooking
pub mod Accounts
pub mod Auth
pub mod Billing
pub mod Dunning
pub mod Merge
pub mod Plans
pub mod Supermarkets
pub mod Freezer
mod Tests
