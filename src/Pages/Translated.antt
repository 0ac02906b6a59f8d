-- ===== src/Pages/Translated.antt =====
-- The texts of the pages have messages: of each component, the keys that are not in the table.
pub mod Parts
pub mod Details
pub mod Form
pub mod App
