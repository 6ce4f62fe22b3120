-- ===== src/Infradb/Program/Reliable.antt =====
-- Stores that never fail.
use opi_evpn_bridge.Prelude.{◌≡◌, refl, sym, ap, ◌∙◌, String, none}
use opi_evpn_bridge.Infradb.Errors.{Result, ok, err}
use opi_evpn_bridge.Infradb.Store.{Gokv, Value}
use opi_evpn_bridge.Infradb.Program.{
  Prog, pure, fail, get, set, delete, create_task, status_updated, start_replay, World, with_task,
  with_status, with_replay, exec, done, run,
}
use opi_evpn_bridge.Infradb.Program.Refine.{view, run-exec}

pub record IsReliable (kv : Gokv) : Type 0 where
  pub reads : (d : kv.Db) (k : String) → kv.get_error d k ≡ none
  pub writes : (d : kv.Db) (k : String) (v : Value) → kv.set_error d k v ≡ none
  pub deletes : (d : kv.Db) (k : String) → kv.delete_error d k ≡ none

module _ (kv : Gokv) (reliable : IsReliable kv) where
  run-returns :
      {A : Type 0} (p : Prog A) (w : World kv.Db) → (r : Result A) × ((run kv p w).0 ≡ done r)
  unfolding run
  run-returns (pure a) w = (ok a, refl)
  run-returns (fail e) w = (err e, refl)
  run-returns (get k g) w = rw (reliable.reads w.db k, run) (run-returns (g (kv.content w.db k)) w)
  run-returns (set k v p) w =
      rw (reliable.writes w.db k v, run) (run-returns p (record w { db = kv.set w.db k v }))
  run-returns (delete k p) w =
      rw (reliable.deletes w.db k, run) (run-returns p (record w { db = kv.delete w.db k }))
  run-returns (create_task t p) w = run-returns p (with_task t w)
  run-returns (status_updated t p) w = run-returns p (with_status t w)
  run-returns (start_replay n p) w = run-returns p (with_replay n w)

  pub run-reliable :
      {A : Type 0} (p : Prog A) (w : World kv.Db) → (run kv p w).0 ≡ done (exec p (view kv w)).0
  run-reliable p w =
      let (r, h) = run-returns p w in h ∙ ap (λ o. done o.0) (sym (run-exec kv p w r h))
