-- ===== src/Xdg/Tests.antt =====
-- The theorems on the desktop shell at concrete objects.
mod Decorations
mod Toplevels
mod Surfaces
