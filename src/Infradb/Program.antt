-- ===== src/Infradb/Program.antt =====
-- How a function of infradb.go acts: by calls of the store, and of the task manager. Such a
-- function is a `Prog`, a tree of these calls. `run` executes it on a store of gokv, where a call
-- may fail; `exec` on the bare contents of a store.
pub mod Refine
pub mod Reliable
use opi_evpn_bridge.Prelude.{
  String, Bool, Option, none, some, List, [], ◌∷◌, ◌++◌, ◌==◌, string_eq, if◌then◌else◌,
}
use opi_evpn_bridge.Component.{Component}
use opi_evpn_bridge.EventBus.{Subscriber}
use opi_evpn_bridge.Infradb.Errors.{Error, Result, ok, err}
use opi_evpn_bridge.Infradb.Store.{Value, Gokv}

-- The arguments of `TaskMan.CreateTask`.
pub record Created : Type 0 where
  pub name : String
  pub object_type : String
  pub resource_version : String
  pub subs : List Subscriber

-- The arguments of `TaskMan.StatusUpdated`.
pub record Reported : Type 0 where
  pub name : String
  pub object_type : String
  pub resource_version : String
  pub notification_id : String
  pub drop_task : Bool
  pub component : Component

-- A failed call of the store ends the function with the store's error.
pub data Prog (A : Type 0) : Type 0 where
  pure : A → Prog A
  fail : Error → Prog A
  get : String → (Option Value → Prog A) → Prog A
  set : String → Value → Prog A → Prog A
  delete : String → Prog A → Prog A
  create_task : Created → Prog A → Prog A
  status_updated : Reported → Prog A → Prog A
  start_replay : String → Prog A → Prog A

infixl 5 ◌>>=◌ ◌>>◌
abbrev pub ◌>>=◌ : {A B : Type 0} → Prog A → (A → Prog B) → Prog B
pure a >>= f = f a
fail e >>= f = fail e
get k g >>= f = get k (λ r. g r >>= f)
set k v p >>= f = set k v (p >>= f)
delete k p >>= f = delete k (p >>= f)
create_task t p >>= f = create_task t (p >>= f)
status_updated t p >>= f = status_updated t (p >>= f)
start_replay n p >>= f = start_replay n (p >>= f)

abbrev pub ◌>>◌ : {B : Type 0} → Prog (Unit {0}) → Prog B → Prog B
p >> q = p >>= λ _. q

abbrev pub from_result : {A : Type 0} → Result A → Prog A
from_result (ok a) = pure a
from_result (err e) = fail e

-- The tasks created, the statuses reported and the replays started, in order, beside the store.
pub record Trace : Type 0 where
  pub tasks : List Created
  pub statuses : List Reported
  pub replays : List String

pub record World (D : Type 0) : Type 0 where
  pub db : D
  pub trace : Trace

abbrev pub with_task : {D : Type 0} → Created → World D → World D
with_task t w = record w { trace = record w.trace { tasks = w.trace.tasks ++ t ∷ [] } }

abbrev pub with_status : {D : Type 0} → Reported → World D → World D
with_status t w = record w { trace = record w.trace { statuses = w.trace.statuses ++ t ∷ [] } }

abbrev pub with_replay : {D : Type 0} → String → World D → World D
with_replay n w = record w { trace = record w.trace { replays = w.trace.replays ++ n ∷ [] } }

abbrev pub Content : Type 0
Content = String → Option Value

abbrev pub update : Content → String → Value → Content
update f k v j = if k == j then some v else f j

abbrev pub remove : Content → String → Content
remove f k j = if k == j then none else f j

unfoldable pub exec : {A : Type 0} → Prog A → World Content → Result A × World Content
exec (pure a) w = (ok a, w)
exec (fail e) w = (err e, w)
exec (get k g) w = exec (g (w.db k)) w
exec (set k v p) w = exec p (record w { db = update w.db k v })
exec (delete k p) w = exec p (record w { db = remove w.db k })
exec (create_task t p) w = exec p (with_task t w)
exec (status_updated t p) w = exec p (with_status t w)
exec (start_replay n p) w = exec p (with_replay n w)

-- A function returns by itself, or a call of the store has failed.
pub data Outcome (A : Type 0) : Type 0 where
  done : Result A → Outcome A
  store_error : String → Outcome A

module _ (kv : Gokv) where
  unfoldable pub run : {A : Type 0} → Prog A → World kv.Db → Outcome A × World kv.Db
  run (pure a) w = (done (ok a), w)
  run (fail e) w = (done (err e), w)
  run (get k g) w = elim (kv.get_error w.db k) [
    | some m ↦ (store_error m, w)
    | none ↦ run (g (kv.content w.db k)) w
  ]
  run (set k v p) w = elim (kv.set_error w.db k v) [
    | some m ↦ (store_error m, record w { db = kv.set w.db k v })
    | none ↦ run p (record w { db = kv.set w.db k v })
  ]
  run (delete k p) w = elim (kv.delete_error w.db k) [
    | some m ↦ (store_error m, record w { db = kv.delete w.db k })
    | none ↦ run p (record w { db = kv.delete w.db k })
  ]
  run (create_task t p) w = run p (with_task t w)
  run (status_updated t p) w = run p (with_status t w)
  run (start_replay n p) w = run p (with_replay n w)
