-- ===== src/Utils/TimeUtil/Bounds.antt =====
-- The number of days that `yearsToDays` gives for a number of years.
