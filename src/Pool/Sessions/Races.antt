-- ===== src/Pool/Sessions/Races.antt =====
-- The goroutines of the relay in internal/proxy/listener.go between a check and a release of
-- internal/pool/strategy.go.
