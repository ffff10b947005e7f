-- ===== src/Lib.antt =====
-- A model of Les Traiteurs Engagés, a marketplace on which companies ask caterers for quotes, and
-- the theorems that make its core correct. Paths are from the repository's root.
--
-- The program is a Flask application over one PostgreSQL database. A request handler opens a
-- session, calls services that read and write rows, and commits or rolls back. The model follows
-- that shape: `Models.Database` is the record of the tables (models.py), a table is the list of its
-- rows (`Base.Tables`), a service that writes is a function on the database, and one that may raise
-- is a `Call` (`Base.Outcome`), which returns the exception or the value with the state of the
-- session at that point. What was written before an exception stays in that state until the
-- handler rolls back, and `or_rollback` and `or_commit` are what the handlers do with it.
--
-- Files and the code they model:
--   Base            tests, tables and queries, the monad of calls, dictionaries, texts
--   Models          models.py: enumerations, rows, the database
--   Notifications   services/notifications.py; Notifications/Pages the links and the reading of
--                   notifications in blueprints/_notifications.py and app.py
--   Impact          services/impact.py
--   Workflow        services/workflow.py, one module for each transition; Workflow/Run is the runs
--                   of the handlers in blueprints/client/requests.py, blueprints/admin.py,
--                   blueprints/caterer/requests.py and blueprints/caterer/orders.py
--   Pricing         services/quotes.py and the amounts of services/stripe_service.py
--   Invoicing       create_invoice_for_order of services/stripe_service.py, and
--                   services/billing_tasks.py
--   Webhook         stripe_webhook of blueprints/api.py
--   Reviews         services/reviews.py
--   Scoping         blueprints/scoping.py: the rows that a user may see
--   Messaging       the messages of blueprints/api.py
--   PasswordReset   services/password_reset.py, and the pages of blueprints/auth.py that call it
--   Team            the posts of blueprints/client/team.py, and the sign-up by invitation of
--                   blueprints/auth.py
--   Signup          the sign-up by SIRET of blueprints/auth.py, and services/slugs.py
--   Terms           services/terms.py, which both sign-ups use
--   Accounts        the password policy, the login and the reset page of blueprints/auth.py, and
--                   load_current_user of app.py
--   Middleware      blueprints/middleware.py, before the posts of Console, Team and Editor
--   Audit           log_admin_action of services/audit.py
--   Console         the posts of blueprints/admin.py, each with its audit row
--   Demands         the wizard's post and the edit of a request in blueprints/client/requests.py,
--                   with blueprints/client/_helpers.py and forms/client.py
--   Editor          the quote editor of blueprints/caterer/requests.py, and the references of
--                   services/quotes.py
--   Uploads         services/uploads.py and blueprints/uploads.py
--   Lifecycle       runs of the workflow, the billing task, the webhook and the administrators on
--                   one database, against an abstract machine of an order's status
--   Examples        a small shop: tests, and the results at concrete inputs
--
-- How the code is read. A UUID is a number, and the k-th that `uuid.uuid4` draws is `uuid4 k`, a
-- field of the database; a date is a day number, a timestamp a number of seconds, and the clock is
-- an argument. A `Decimal` is a number of parts of a unit that suits the whole quote, so that sums
-- and products are exact, and `quantize` is rounding half to even; a quotient is rounded once,
-- where Python first rounds it to 28 digits, far below a half cent at the sizes that validation
-- lets through. A query takes the rows in the order of insertion. `SELECT ... FOR UPDATE`
-- serialises calls on one request, so that concurrent handlers are sequences of transactions.
-- Every loop is a recursion on a list, and `str` of a number has its value as fuel, which bounds
-- its digits. The numbers that are drawn for an invoice prefix are the fuel of that loop: distinct
-- texts, more than there are caterers, are enough. No other fuel is used.
--
-- Parameters. What Stripe's calls return (`StripeAnswers`, or nothing after an error), whether a
-- webhook signature is valid and the event it then holds, SHA-256 and bcrypt, random tokens and salts, what
-- Python's str methods say of a character, `uuid.UUID`, the fields that WTForms has validated, the
-- rounding at a column, the re-encoding of Pillow and pikepdf, and the clock are arguments: the code
-- of these is not in the repository. The bucket is a record of the calls of its client (`Bucket`),
-- with what they promise as laws: an object is found after it has been put, and not once it is deleted.
--
-- Exactness. The products of a line of a quote are exact here, where Python's `Decimal` keeps 28
-- digits: the two agree on the numbers that a form carries with the digits of its columns. The 36
-- characters that `quote_requests.submission_token` holds are not modelled: a longer token, which
-- the page never makes, is one that the database would refuse.
--
-- Not modelled: pages that only read, the validators of forms, e-mail, PDF rendering, the inbox
-- pages, the profiles and the Stripe onboarding of the caterers, the search, and the columns that
-- only pages display. A handler of the model is given its user; Middleware puts
-- the decorators before the posts of the administrator, of the team page and of the quote editor, and
-- the same decorators stand before the other handlers.
pub mod Accounts
pub mod Audit
pub mod Base
pub mod Console
pub mod Models
pub mod Notifications
pub mod Workflow
pub mod PasswordReset
pub mod Pricing
pub mod Impact
pub mod Invoicing
pub mod Scoping
pub mod Demands
pub mod Lifecycle
pub mod Messaging
pub mod Middleware
pub mod Reviews
pub mod Signup
pub mod Team
pub mod Terms
pub mod Uploads
pub mod Webhook
pub mod Editor
pub mod Examples
