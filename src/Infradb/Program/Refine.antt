-- ===== src/Infradb/Program/Refine.antt =====
-- A function's run, seen on the contents of the store.
use opi_evpn_bridge.Prelude.{◌≡◌, refl, subst, fun_ext, arith, inl, inr, Option-cases}
use opi_evpn_bridge.Infradb.Errors.{Result, ok, err}
use opi_evpn_bridge.Infradb.Store.{Gokv}
use opi_evpn_bridge.Infradb.Program.{
  Prog, pure, fail, get, set, delete, create_task, status_updated, start_replay, World, Content,
  with_task, with_status, with_replay, exec, done, run, update, remove, ◌>>=◌,
}

-- What is left of a function after a part of it has ended.
abbrev pub after :
    {A B : Type 0} → Result A × World Content → (A → Prog B) → Result B × World Content
after (ok a, w) f = exec (f a) w
after (err e, w) f = (err e, w)

pub exec-bind :
    {A B : Type 0} (p : Prog A) (f : A → Prog B) (w : World Content)
    → exec (p >>= f) w ≡ after (exec p w) f
unfolding exec
exec-bind (pure a) f w = refl
exec-bind (fail e) f w = refl
exec-bind (get k g) f w = exec-bind (g (w.db k)) f w
exec-bind (set k v p) f w = exec-bind p f (record w { db = update w.db k v })
exec-bind (delete k p) f w = exec-bind p f (record w { db = remove w.db k })
exec-bind (create_task t p) f w = exec-bind p f (with_task t w)
exec-bind (status_updated t p) f w = exec-bind p f (with_status t w)
exec-bind (start_replay n p) f w = exec-bind p f (with_replay n w)

module _ (kv : Gokv) where
  abbrev pub view : World kv.Db → World Content
  view w = record { db = kv.content w.db; trace = w.trace }

  pub run-exec :
      {A : Type 0} (p : Prog A) (w : World kv.Db) (r : Result A)
      → (run kv p w).0 ≡ done r
      → exec p (view w) ≡ (r, view (run kv p w).1)
  unfolding run exec
  run-exec (pure a) w r h = ground arith
  run-exec (fail e) w r h = ground arith
  run-exec (get k g) w r h = elim (Option-cases (kv.get_error w.db k)) [
    | inl e ↦ rw (e, run) (run-exec (g (kv.content w.db k)) w r (rw (e, run) at h))
    | inr (m, e) ↦ cc (rw (e, run) at h)
  ]
  run-exec (set k v p) w r h = elim (Option-cases (kv.set_error w.db k v)) [
    | inl e ↦
        rw (e, run)
          (rw (← fun_ext (λ j. kv.content-set w.db k v j e))
            (run-exec p (record w { db = kv.set w.db k v }) r (rw (e, run) at h)))
    | inr (m, e) ↦ cc (rw (e, run) at h)
  ]
  run-exec (delete k p) w r h = elim (Option-cases (kv.delete_error w.db k)) [
    | inl e ↦
        rw (e, run)
          (rw (← fun_ext (λ j. kv.content-delete w.db k j e))
            (run-exec p (record w { db = kv.delete w.db k }) r (rw (e, run) at h)))
    | inr (m, e) ↦ cc (rw (e, run) at h)
  ]
  run-exec (create_task t p) w r h = run-exec p (with_task t w) r h
  run-exec (status_updated t p) w r h = run-exec p (with_status t w) r h
  run-exec (start_replay n p) w r h = run-exec p (with_replay n w) r h

  -- A fact of `exec` is a fact of `run`.
  pub run_by_exec :
      {A : Type 0} (P : Result A → World Content → Type 0) (p : Prog A) (w : World kv.Db)
      (r : Result A)
      → (run kv p w).0 ≡ done r
      → P (exec p (view w)).0 (exec p (view w)).1
      → P r (view (run kv p w).1)
  run_by_exec P p w r h q = subst (λ o. P o.0 o.1) (run-exec p w r h) q
