-- ===== src/Client.antt =====
-- The browser side of the program, app/static/app.js: the helpers, the dialogs, every handler that a
-- page binds to a control, and what they leave behind.
pub mod Number
pub mod Page
pub mod Js
pub mod Dialogs
pub mod Api
pub mod Attribution
pub mod Topup
pub mod Time
pub mod Nav
pub mod Load
pub mod Ends
pub mod Play
pub mod Settings
pub mod Admin
pub mod Records
pub mod Handlers
pub mod Trace
pub mod Kept
pub mod Guards
pub mod Toggles
pub mod Session
