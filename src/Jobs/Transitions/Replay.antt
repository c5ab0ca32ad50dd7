-- ===== src/Jobs/Transitions/Replay.antt =====
-- A worker that repeats its last call, at any later time, is told that it had been carried out,
-- and nothing happens twice.
use euphoria_api.Base.{nat_eq}
use euphoria_api.Jobs.Sound.{Sound}
