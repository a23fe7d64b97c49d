-- ===== src/Registry/Locks.antt =====
-- `acquire_lock`, `current_lock`, `renew_lock` and `release_lock` of
-- crates/scheduler-store/src/lib.rs. The token of a new lock is an argument.
use task_scheduler.Prelude.{
  ℕ, ◌+◌, String, Bool, true, false, not, ◌&&◌, Option, none, some, List, [], ◌∷◌, ◌++◌, leb, ltb,
  ◌==◌, if◌then◌else◌, find, update_where, matched, keep, any, Result, err, ok, ◌>>◌, guard,
}
use task_scheduler.Registry.Tables.{
  EditLock, Registry, RegistryError, being_edited, lock_not_found, lock_force_released, lock_key,
  append_event,
}

-- Duration::minutes(2)
abbrev pub lock_lifetime : ℕ
lock_lifetime = 120000

-- DELETE … WHERE document_key=? AND expires_at<=?
abbrev pub is_expired_lock : ℕ → ℕ → EditLock → Bool
is_expired_lock key now l = l.document_key == key && leb l.expires_at now

abbrev pub drop_expired : ℕ → ℕ → List EditLock → List EditLock
drop_expired key now locks = keep (λ l. not (is_expired_lock key now l)) locks

abbrev pub new_lock : ℕ → String → ℕ → ℕ → EditLock
new_lock key owner token now = record {
  document_key = key;
  owner_session = owner;
  lock_token = token;
  expires_at = now + lock_lifetime;
}

-- INSERT … ON CONFLICT(document_key) DO NOTHING, and the check of `rows_affected`
insert_lock :
    Option EditLock
    → EditLock
    → List EditLock
    → Registry
    → Result RegistryError (EditLock × Registry)
insert_lock none l locks s = ok (l, record s { locks = locks ++ l ∷ [] })
insert_lock (some held) l locks s = err (being_edited held.owner_session)

unfoldable pub acquire_lock :
    ℕ → String → ℕ → ℕ → Registry → Result RegistryError (EditLock × Registry)
unfolding insert_lock
acquire_lock key owner token now s =
    let locks = drop_expired key now s.locks in
    insert_lock (find lock_key key locks) (new_lock key owner token now) locks s

-- WHERE document_key=? AND expires_at>?
abbrev pub live_at : ℕ → Option EditLock → Option EditLock
live_at now none = none
live_at now (some l) = if ltb now l.expires_at then some l else none

unfoldable pub current_lock : ℕ → ℕ → Registry → Option EditLock
current_lock key now s = live_at now (find lock_key key s.locks)

abbrev pub has_token : ℕ → EditLock → Bool
has_token token l = l.lock_token == token

unfoldable pub renew_lock : ℕ → ℕ → ℕ → Registry → Result RegistryError (ℕ × Registry)
renew_lock key token now s = do
  guard (matched lock_key key (has_token token) s.locks) lock_not_found
  ok (
    now + lock_lifetime,
    record s {
      locks =
          update_where lock_key key (has_token token)
            (λ l. record l { expires_at = now + lock_lifetime }) s.locks;
    },
  )

-- The two DELETE statements.
abbrev pub delete_all : ℕ → List EditLock → List EditLock
delete_all key locks = keep (λ l. not (l.document_key == key)) locks

abbrev pub delete_own : ℕ → ℕ → List EditLock → List EditLock
delete_own key token locks = keep (λ l. not (l.document_key == key && has_token token l)) locks

unfoldable pub release_lock : ℕ → ℕ → Bool → Registry → Registry
release_lock key token true s =
    let s1 = record s { locks = delete_all key s.locks } in
    if any (λ l. l.document_key == key) s.locks
    then append_event (lock_force_released key) s1
    else s1
release_lock key token false s = record s { locks = delete_own key token s.locks }
