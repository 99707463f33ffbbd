-- ===== src/Liveness.antt =====
-- packages/lock/src/liveness.ts: whether the holder of a lock is alive, and whether a waiter may take
-- the lock away. What the operating system answers is a record of arguments. Times are natural
-- numbers of milliseconds, and a difference that is negative is written out.
pub mod Stale
mod Tests
use sozai.Common.{
  ℕ, ◌+◌, ◌-◌, Bool, true, false, Option, none, some, ltb, leb, if◌then◌else◌, ◌&&◌, ◌||◌, not,
}
use sozai.Common.Text.{Text, same}

-- record.ts
pub record LockRecord : Type 0 where
  pub pid : ℕ
  pub hostname : Text
  pub nonce : Text
  pub boot_id : Option Text
  pub boot_at : ℕ
  pub started_at : ℕ
  pub uptime_at : ℕ

-- file.ts
pub record LockEntry : Type 0 where
  pub lock_record : Option LockRecord
  pub inode : Option ℕ
  pub mtime_ms : Option ℕ

-- What `process.kill(pid, 0)` does: it returns, or throws with a code.
pub data Probe : Type 0 where
  delivered esrch eperm other_code : Probe

-- What the waiter's host answers: `getBootID`, `getBootAt` and `getUptimeAt` among them.
pub record Host : Type 0 where
  pub is_darwin : Bool
  pub hostname : Text
  pub boot_id : Option Text
  pub boot_at : ℕ
  pub uptime_at : ℕ
  pub probe : ℕ → Probe

pub data Liveness : Type 0 where
  alive dead unknown : Liveness

abbrev pub boot_tolerance_ms : ℕ
boot_tolerance_ms = 30_000

-- `Math.abs(a - b)`
abbrev pub distance : ℕ → ℕ → ℕ
distance a b = (a - b) + (b - a)

-- `isSameBoot` where one of the boot ids is missing.
abbrev pub is_near_boot : Host → LockRecord → Bool
is_near_boot host held = leb (distance held.boot_at host.boot_at) boot_tolerance_ms

-- `isSameBoot`
unfoldable pub is_same_boot : Host → LockRecord → Bool
is_same_boot host held = elim host.boot_id [
  | none ↦ is_near_boot host held
  | some boot ↦ elim held.boot_id [
    | none ↦ is_near_boot host held
    | some held_boot ↦ same held_boot boot
  ]
]

-- `isSameBootAndPIDNamespace`
unfoldable pub is_same_namespace : Host → LockRecord → Bool
unfolding is_same_boot
is_same_namespace host held =
    let by_name = same held.hostname host.hostname && is_same_boot host held in
    elim host.boot_id [
      | none ↦ by_name
      | some boot ↦ elim held.boot_id [
        | none ↦ by_name
        | some held_boot ↦
            same held_boot boot && (host.is_darwin || same held.hostname host.hostname)
      ]
    ]

abbrev pub of_probe : Probe → Liveness
of_probe Probe.delivered = alive
of_probe Probe.esrch = dead
of_probe Probe.eperm = alive
of_probe Probe.other_code = unknown

unfoldable pub check_liveness : Host → LockRecord → Liveness
unfolding is_same_namespace
check_liveness host held =
    if not (is_same_namespace host held) then unknown else of_probe (host.probe held.pid)

-- A holder of which nothing is known.
unfoldable pub is_expired : Host → ℕ → ℕ → LockRecord → Bool
is_expired host stale_timeout now held =
    if not (same held.hostname host.hostname)
    then ltb stale_timeout (now - held.started_at)
    else if ltb host.uptime_at held.uptime_at
    then ltb now held.started_at || ltb stale_timeout (now - held.started_at)
    else ltb stale_timeout (host.uptime_at - held.uptime_at)

abbrev pub is_old : Option ℕ → ℕ → ℕ → Bool
is_old none stale_timeout now = true
is_old (some mtime) stale_timeout now = ltb stale_timeout (now - mtime)

unfoldable pub is_stale : Host → LockEntry → ℕ → ℕ → Bool
unfolding check_liveness is_expired
is_stale host entry stale_timeout now = elim entry.lock_record [
  | none ↦ is_old entry.mtime_ms stale_timeout now
  | some held ↦ elim (check_liveness host held) [
    | alive ↦ false
    | dead ↦ true
    | unknown ↦ is_expired host stale_timeout now held
  ]
]
