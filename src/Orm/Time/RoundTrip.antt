-- ===== src/Orm/Time/RoundTrip.antt =====
-- A time survives JSON, to the second.
