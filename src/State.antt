-- ===== src/State.antt =====
-- apps/web/src/app/state: the state that the board keeps in the browser.
pub mod Panes
pub mod Parked
pub mod Frame
pub mod Actions
pub mod Toast
pub mod Keyboard
pub mod Layout
pub mod BoardReturn
pub mod Client
