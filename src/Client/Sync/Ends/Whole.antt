-- ===== src/Client/Sync/Ends/Whole.antt =====
-- client/sync.go: `syncNode` ends.
use simpleiot.Client.Sync.Ends.{Ends}
