-- ===== src/Liveness/Stale.antt =====
-- When a waiter may take a lock away.
use sozai.Common.{ℕ, ◌+◌, ◌<◌, ◌≡◌, ◌≢◌, ◌⊎◌, true, some, arith}
use sozai.Common.Text.{same_iff}
use sozai.Liveness.{
  LockRecord, LockEntry, Probe, Host, unknown, check_liveness, is_expired, is_same_namespace,
  is_stale,
}

-- What makes the lock of a record stale: the wall clock decides for another host, and for the
-- waiter's own only where its uptime ran backwards, with a wall clock that did so too, or that shows
-- the timeout.
abbrev pub IsOverdue : Host → LockRecord → ℕ → ℕ → Type 0
IsOverdue host held stale_timeout now =
    ((held.hostname ≢ host.hostname) × (held.started_at + stale_timeout < now))
    ⊎ ((held.hostname ≡ host.hostname)
        × ((held.uptime_at + stale_timeout < host.uptime_at)
            ⊎ ((host.uptime_at < held.uptime_at)
                × ((now < held.started_at) ⊎ (held.started_at + stale_timeout < now)))))

-- A stale lock that has a record is that of a process that the waiter's own boot and namespace no
-- longer has, or of a holder of which nothing is known and which is overdue: by the wall clock on
-- another host, by the uptime on the waiter's own, and there by the wall clock only where the
-- uptime ran backwards.
pub is_stale_taken :
    (host : Host) (entry : LockEntry) (held : LockRecord) (stale_timeout now : ℕ)
    → entry.lock_record ≡ some held
    → is_stale host entry stale_timeout now ≡ true
    → ((is_same_namespace host held ≡ true) × (host.probe held.pid ≡ Probe.esrch))
      ⊎ ((check_liveness host held ≡ unknown) × IsOverdue host held stale_timeout now)
unfolding is_stale check_liveness is_expired
is_stale_taken host entry held stale_timeout now e h =
    ground (arith, same_iff held.hostname host.hostname)
