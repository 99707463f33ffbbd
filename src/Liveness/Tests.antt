-- ===== src/Liveness/Tests.antt =====
-- Locks judged at concrete inputs, and instances of the theorems on them.
use sozai.Common.{◌≡◌, refl, ◌⊎◌, true, false, some, ◌==◌, if◌then◌else◌}
use sozai.Common.Text.{txt, same}
use sozai.Liveness.{
  LockRecord, LockEntry, Probe, Host, unknown, check_liveness, is_same_namespace, is_stale,
}
use sozai.Liveness.Stale.{IsOverdue, is_stale_taken}

-- A linux host on which only process 7 exists, of another user.
abbrev host : Host
host = record {
  is_darwin = false;
  hostname = txt "h";
  boot_id = some (txt "boot");
  boot_at = 5;
  uptime_at = 9_000;
  probe = λ pid. if pid == 7 then Probe.eperm else Probe.esrch;
}

abbrev held : LockRecord
held = record {
  pid = 7;
  hostname = txt "h";
  nonce = txt "n";
  boot_id = some (txt "boot");
  boot_at = 5;
  started_at = 100;
  uptime_at = 50;
}

abbrev entry : LockRecord → LockEntry
entry r = record { lock_record = some r; inode = some 3; mtime_ms = some 100 }

-- The record of another boot.
abbrev old : LockRecord
old = record held { boot_id = some (txt "earlier") }

old_stale : is_stale host (entry old) 10 99_999 ≡ true
unfolding is_stale same
old_stale = refl

is_stale_taken_example :
    ((is_same_namespace host old ≡ true) × (host.probe 7 ≡ Probe.esrch))
    ⊎ ((check_liveness host old ≡ unknown) × IsOverdue host old 10 99_999)
is_stale_taken_example = is_stale_taken host (entry old) old 10 99_999 refl old_stale
