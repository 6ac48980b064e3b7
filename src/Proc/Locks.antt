-- ===== src/Proc/Locks.antt =====
-- kernel/proc.c: one entry of the table, its lock and its update.
use proj.Common.{ℕ, ◌≡◌, ◌≢◌, refl, sym, ap, ◌∙◌, ok, arith, ◌==◌, ==_refl, if◌then◌else◌, fun_ext}
use proj.Proc.{unheld, this_cpu, Proc, Table, put, lock, unlock, acquire, release, visit}

-- No entry is locked.
abbrev pub Quiet : Table → Type 0
Quiet t = (j : ℕ) → (t.procs j).locked ≡ unheld

pub procs-put :
    (i j : ℕ) (p : Proc) (t : Table) → (put i p t).procs j ≡ (if j == i then p else t.procs j)
unfolding put
procs-put i j p t = refl

pub procs-put_self : (i : ℕ) (p : Proc) (t : Table) → (put i p t).procs i ≡ p
unfolding put
procs-put_self i p t = rw (==_refl i)

pub procs-put_ne : (i j : ℕ) (p : Proc) (t : Table) → j ≢ i → (put i p t).procs j ≡ t.procs j
unfolding put
procs-put_ne i j p t ne = ground arith

pub put-put : (i : ℕ) (p q : Proc) (t : Table) → put i p (put i q t) ≡ put i p t
unfolding put
put-put i p q t = ap {B = Table} (λ f. record t { procs = f }) (fun_ext λ j. ground arith)

pub put_same : (i : ℕ) (p : Proc) (t : Table) → p ≡ t.procs i → put i p t ≡ t
unfolding put
put_same i p t e = ap {B = Table} (λ f. record t { procs = f }) (fun_ext λ j. ground arith)

pub locked-lock : (p : Proc) → (lock p).locked ≡ this_cpu
unfolding lock
locked-lock p = refl

pub unlock-lock : (p : Proc) → p.locked ≡ unheld → unlock (lock p) ≡ p
unfolding lock unlock
unlock-lock p e = ap (λ b. record p { locked = b }) (sym e)

pub acquire-ok :
    (i : ℕ) (t : Table)
    → (t.procs i).locked ≡ unheld
    → acquire i t ≡ ok (put i (lock (t.procs i)) t)
unfolding acquire
acquire-ok i t free = rw free

pub release-put :
    (i : ℕ) (p : Proc) (t : Table)
    → p.locked ≡ this_cpu
    → release i (put i p t) ≡ ok (put i (unlock p) t)
unfolding release
release-put i p t e = rw (procs-put_self, e, put-put)

pub visit-ok :
    (i : ℕ) (f : Proc → Proc) (t : Table)
    → (t.procs i).locked ≡ unheld
    → (f (lock (t.procs i))).locked ≡ this_cpu
    → visit i f t ≡ ok (put i (unlock (f (lock (t.procs i)))) t)
unfolding visit
visit-ok i f t free keeps =
    rw (acquire-ok i t free, procs-put_self, put-put, release-put i (f (lock (t.procs i))) t keeps)

pub Quiet-put : (i : ℕ) (p : Proc) (t : Table) → p.locked ≡ unheld → Quiet t → Quiet (put i p t)
Quiet-put i p t e q j = ground (arith, procs-put i j p t, q j)

-- Equal entries make equal tables.
pub table_eq :
    (t : Table) {f g : ℕ → Proc}
    → ((j : ℕ) → f j ≡ g j)
    → ok (record t { procs = f }) ≡ ok (record t { procs = g })
table_eq t h = ap (λ f. ok (record t { procs = f })) (fun_ext h)

-- A lock taken and released.
pub release-lock :
    (i : ℕ) (t : Table)
    → (t.procs i).locked ≡ unheld
    → release i (put i (lock (t.procs i)) t) ≡ ok t
release-lock i t free =
    release-put i (lock (t.procs i)) t (locked-lock (t.procs i))
    ∙ ap ok (put_same i (unlock (lock (t.procs i))) t (unlock-lock (t.procs i) free))
