-- ===== src/Lib.antt =====
-- NekoPay, a web application that splits a shared arcade wallet into the shares of its members.
--
-- A page of the browser (app/static/app.js) shows forms and dialogs and posts JSON to the API. The
-- server (app/, in Python) keeps an internal ledger, mirrors the pay history of the shared account,
-- ties one to the other, and computes who owes whom.
--
-- Prelude: library names, Boolean tests, lists and integers over the native numbers.
--
-- Client: app/static/app.js.
--   Client.Number: JavaScript's numbers as NaN or whole hundredths; finer fractions and Infinity are
--     not modelled. The floor of a quotient of binary fractions is a parameter of the environment.
--   Client.Page: the form fields, the globals that the templates set, the overlays, and the trace of
--     what the user and the server see. An environment answers: the user's gestures and confirms, the
--     server's replies, and the conversions between texts and numbers, each any function of the page.
--   Client.Js: an async function as a function from the page to an outcome (returned, thrown, or
--     waiting for ever) and a page.
--   Client.Dialogs: inputModal, infoDialog, pickCandidate as state machines over gestures.
--   Client.Api: NK.post, NK.del. Client.Attribution: autoAttributeFlow, supplementAttribute.
--   Client.Topup: topupPoints, updateTopupPreview, timeVal, doTopup. Client.Play: antiAddictionOk,
--     doPlay, doTransfer. Client.Settings: setRate, saveAntiAddiction, toggleAutoAttribute, syncNow,
--     setSyncSince, clearSyncSince. Client.Admin: attribute, ignoreTxn, resetDatabase and the member
--     handlers. Client.Records: delEntry, startEdit.
--   Client.Time: nowLocalValue, fmtTxnTime. Client.Nav: the bar of navigation links, in hundredths of
--     a pixel. Client.Load: the lines that run when the script is loaded.
--   Client.Handlers: the handlers as data, and a session. Client.Trace: what a trace has to look like.
--   Client.Kept, Client.Ends, Client.Session, Client.Guards, Client.Toggles and the modules below
--     Client.Time, Client.Nav and Client.Load: the proofs.
--   Handlers run one at a time: a second click while a request is under way is not modelled.
--
-- Server: app/, each with its proofs below it.
--   Server.Vip: app/vip.py, money and rate as whole numbers of any decimal unit of NT$.
--   Server.Dedup, Server.Parse and Server.History: app/sync/dedup.py, from the JSON of a pay history to
--     the rows that are new, with the time of each to the second. Python's int and strip, the digests
--     of hashlib and the conversion from the local time to UTC are parameters.
--   Server.Sync and Server.Cycle: run_sync_cycle of app/services/sync_service.py, the insertion of rows
--     and the whole cycle; what the JSON of an answer is read as is a parameter.
--   Server.Settlement: settle of app/services/settlement.py, in hundredths of NT$. Its loop takes as
--     fuel the number of creditors and debtors, since each round settles one of them.
--   Server.Store: the rows of app/models and what a commit checks. Server.Ledger and Server.Transfer:
--     app/services/ledger_service.py, each operation as a function of the time, its parameters and
--     the tables to an error or a result and the tables. The fuel of a transfer is Python's recursion
--     limit: running out of it is the RecursionError of the program.
--   Server.Edit and Server.Link: app/services/ledger_edit.py. Server.Attribution: attribute,
--     ignore_real_txn and reverse_attribution of app/services/attribution_service.py. Their audit
--     rows are not modelled.
--   Server.Ties: the mirrored rows of real transactions, and everything that is done to them and to the
--     ledger as a sequence of events.
--   Server.Report: app/services/reconciliation.py, in whole seconds.
--   Server.Actions: app/api/actions.py, from an accepted body to the tables. Server.Text: the numbers
--     in its notes. The rate, the tier of the latest snapshot and strip are a context of the request.
--   Server.Match: the query of match in app/api/attribution.py.
--   Server.Sql: statements over whole tables. Server.Auth: app/services/auth_service.py and
--     app/security.py; argon2, strip and the two functions lower (of Python and of SQL) are parameters,
--     the tokens that a call draws are its arguments. Server.Accounts and Server.Purge:
--     app/services/member_admin.py. Server.Routes: the routes of app/api/members.py that change
--     accounts, the reset of app/api/admin.py, login and logout of app/api/auth.py.
--   Server.Pay: app/services/nekopay_client.py, app/services/token_manager.py and the network part of
--     run_sync_cycle; the service is any function of the requests so far, the loop over the attempts is
--     by recursion on their number.
--   Server.Pool: what the ledger promises, a balance of each member without the rows.
--   Server.Results, Server.Balances, Server.Operations and the modules below Server.Transfer, Server.Edit,
--     Server.Link, Server.Attribution, Server.Ties, Server.Actions,
--     Server.Parse, Server.Cycle and Server.Report: the proofs.
--   Each operation runs alone: commits of other sessions in its middle are not modelled.
--
-- Contract: where the browser and the server have to agree.
--
-- Not modelled: the database engine and its sessions, the templates, the audit rows, the HTTP
-- library and the scheduler, migrations, and the copy of Chart.js.
pub mod Prelude
pub mod Client
pub mod Server
pub mod Contract
