-- ===== src/Registry/Exclusion.antt =====
-- The locks as their clients see them: each document has at most one lock, which expires.
use mathlib.Core.Path.{fun_ext}
use task_scheduler.Prelude.{
  ℕ, ◌+◌, ◌≡◌, refl, String, Bool, true, false, not, ◌&&◌, Option, none, some, List, [], ◌∷◌, arith,
  ◌==◌, leb, ltb, if◌then◌else◌, find, find-update, update_where, matched, test_row, map_row,
  Result, err, ok,
}
use task_scheduler.Registry.Tables.{EditLock, Registry, RegistryError, lock_key}
use task_scheduler.Registry.Locks.{
  acquire_lock, renew_lock, release_lock, new_lock, lock_lifetime, has_token, is_expired_lock,
  drop_expired,
}
use task_scheduler.Registry.LockRows.{
  find-append_either, Keyed, keep-Keyed, find-deleted, find-spared, append-Keyed, update-Keyed,
}

pub data LockCall : Type 0 where
  acquire : (key : ℕ) (owner : String) (token now : ℕ) → LockCall
  renew : (key token now : ℕ) → LockCall
  release : (key token : ℕ) (force : Bool) → LockCall

-- The registry after a call, and whether the call succeeded.
abbrev outcome : {A : Type 0} → Registry → Result RegistryError (A × Registry) → Bool × Registry
outcome s (err e) = (false, s)
outcome s (ok (a, t)) = (true, t)

unfoldable pub perform : LockCall → Registry → Bool × Registry
perform (acquire key owner token now) s = outcome s (acquire_lock key owner token now s)
perform (renew key token now) s = outcome s (renew_lock key token now s)
perform (release key token force) s = (true, release_lock key token force s)

-- The specification: a function from documents to locks.
abbrev pub Holders : Type 0
Holders = ℕ → Option EditLock

abbrev pub assign : ℕ → Option EditLock → Holders → Holders
assign key l f other = if other == key then l else f other

abbrev pub owned_by : ℕ → Option EditLock → Bool
owned_by token o = test_row (has_token token) o

abbrev pub is_free : ℕ → Option EditLock → Bool
is_free now o = not (test_row (λ l. ltb now l.expires_at) o)

abbrev pub extended : ℕ → EditLock → EditLock
extended now l = record l { expires_at = now + lock_lifetime }

unfoldable pub specified : LockCall → Holders → Bool × Holders
specified (acquire key owner token now) f =
    if is_free now (f key)
    then (true, assign key (some (new_lock key owner token now)) f)
    else (false, f)
specified (renew key token now) f =
    if owned_by token (f key)
    then (true, assign key (map_row (extended now) (f key)) f)
    else (false, f)
specified (release key token force) f =
    if force
    then (true, assign key none f)
    else if owned_by token (f key)
    then (true, assign key none f)
    else (true, f)

abbrev pub holders : Registry → Holders
holders s key = find lock_key key s.locks

-- One call does to the table what the specification says.
record Refines (call : LockCall) (s : Registry) : Type 0 where
  kept : Keyed (perform call s).1.locks
  answer : (perform call s).0 ≡ (specified call (holders s)).0
  reads : (key : ℕ) → holders (perform call s).1 key ≡ (specified call (holders s)).1 key

release-Refines :
    (key token : ℕ) (force : Bool) (s : Registry)
    → Keyed s.locks
    → Refines (release key token force) s
unfolding perform specified release_lock
release-Refines key token true s k =
    let p = λ (l : EditLock). not (l.document_key == key) in
    let here = find-deleted key (λ l. true) p (λ l. ground arith) s.locks k in
    let there = λ (other : ℕ). find-spared key (λ l. true) p (λ l. ground arith) other s.locks in
    record {
      kept = ground (arith, keep-Keyed p s.locks k);
      answer = refl;
      reads = λ other. ground (arith, here, there other);
    }
release-Refines key token false s k =
    let p = λ (l : EditLock). not (l.document_key == key && has_token token l) in
    let here = find-deleted key (has_token token) p (λ l. refl) s.locks k in
    let there = λ (other : ℕ). find-spared key (has_token token) p (λ l. refl) other s.locks in
    record {
      kept = keep-Keyed p s.locks k;
      answer = ground arith;
      reads = λ other. ground (arith, here, there other);
    }

renew-Refines : (key token now : ℕ) (s : Registry) → Keyed s.locks → Refines (renew key token now) s
unfolding perform specified renew_lock matched update_where
renew-Refines key token now s k =
    let f = λ (l : EditLock). if has_token token l then extended now l else l in
    record {
      kept = ground (arith, update-Keyed key f s.locks (λ l. ground arith) k);
      answer = ground arith;
      reads = λ other. ground (arith, find-update lock_key key other f s.locks (λ l. ground arith));
    }

acquire-Refines :
    (key : ℕ) (owner : String) (token now : ℕ) (s : Registry)
    → Keyed s.locks
    → Refines (acquire key owner token now) s
unfolding perform specified acquire_lock
acquire-Refines key owner token now s k =
    let q = λ (l : EditLock). leb l.expires_at now in
    let p = λ (l : EditLock). not (is_expired_lock key now l) in
    let here = find-deleted key q p (λ l. refl) s.locks k in
    let there = λ (other : ℕ). find-spared key q p (λ l. refl) other s.locks in
    let locks = drop_expired key now s.locks in
    let l = new_lock key owner token now in
    record {
      kept = ground (arith, keep-Keyed p s.locks k, append-Keyed l locks);
      answer = ground (arith, here);
      reads = λ other. ground (arith, here, there other, find-append_either other locks l);
    }

-- A sequence of calls: the answers in order, and the last registry.
unfoldable pub run : List LockCall → Registry → List Bool × Registry
run [] s = ([], s)
run (c ∷ cs) s =
    let (answer, t) = perform c s in let (answers, u) = run cs t in (answer ∷ answers, u)

unfoldable pub run_specified : List LockCall → Holders → List Bool × Holders
run_specified [] f = ([], f)
run_specified (c ∷ cs) f =
    let (answer, g) = specified c f in
    let (answers, h) = run_specified cs g in (answer ∷ answers, h)

call-Refines : (call : LockCall) (s : Registry) → Keyed s.locks → Refines call s
call-Refines (acquire key owner token now) s k = acquire-Refines key owner token now s k
call-Refines (renew key token now) s k = renew-Refines key token now s k
call-Refines (release key token force) s k = release-Refines key token force s k

-- Any sequence of calls on the table of locks gives the answers of the specification, in which a
-- document has at most one lock, a lock that has not expired refuses every other editor, and only
-- the token of a lock renews it or, without force, releases it; and the rows that remain are the
-- specification's.
pub run_refines :
    (calls : List LockCall) (s : Registry)
    → Keyed s.locks
    → Keyed (run calls s).1.locks
      × ((run calls s).0 ≡ (run_specified calls (holders s)).0)
      × (holders (run calls s).1 ≡ (run_specified calls (holders s)).1)
unfolding run run_specified
run_refines [] s k = (k, refl, refl)
run_refines (c ∷ cs) s k =
    let r = call-Refines c s k in
    let (kept, answers, rows) = run_refines cs (perform c s).1 r.kept in
    let same : holders (perform c s).1 ≡ (specified c (holders s)).1 = fun_ext r.reads in
    (kept, cc (r.answer, answers, same), cc (rows, same))
