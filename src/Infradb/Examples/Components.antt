-- ===== src/Infradb/Examples/Components.antt =====
-- The theorems about the loops over components, at sample components.
