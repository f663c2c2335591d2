-- ===== src/Xdg.antt =====
-- The desktop shell: compositor/extensions/aurorawaylandxdgshell.cpp under src/, an object of the
-- source to a module. A request or a method returns the new state and what it does to the outside.
pub mod Effect
pub mod Positioner
pub mod Toplevel
pub mod Popup
pub mod Surface
pub mod Shell
pub mod Decoration
mod Tests
