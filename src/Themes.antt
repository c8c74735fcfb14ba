-- ===== src/Themes.antt =====
-- web/src/lib/registries/themeRegistry.ts and web/src/lib/themeStore.ts: the themes there are, the
-- theme that is chosen, and what the document shows.
--
-- One record has the variables of both modules, the storage and the document. Of the document it has
-- the class "dark", and the names of the classes that begin with "theme-".
pub mod Registry
pub mod Store
pub mod Applied
pub mod Shown
pub mod Pending
pub mod Snapshot
mod Tests
