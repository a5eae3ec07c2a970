-- ===== src/Storage.antt =====
-- engine/types/engine.ts, `IStorageEngine`, as the rate limiters and the circuit breaker use it: the
-- records of one namespace, read and written by their id.
use oqronkit.Prelude.{◌≡◌, ite, Option, none, some, Text, text_discrete}
use oqronkit.JsMap
use oqronkit.JsMap.{JsMap, get-set, get-delete}

pub record Storage (V : Type 0) : Type 1 where
  pub State : Type 0
  pub get : Text → State → Option V
  pub save : Text → V → State → State
  pub delete : Text → State → State
  pub get-save :
      (j k : Text) (v : V) (s : State)
      → get j (save k v s) ≡ ite (text_discrete k j) (some v) (get j s)
  pub get-delete :
      (j k : Text) (s : State) → get j (delete k s) ≡ ite (text_discrete k j) none (get j s)

-- engine/memory/memory-store.ts: `save`, `get` and `delete` of one namespace. Values of the model
-- are never written in place, so that the copies which the store makes are the values themselves.
abbrev pub memory_store : (V : Type 0) → Storage V
memory_store V = record {
  State = JsMap V;
  get = JsMap.get;
  save = JsMap.set;
  delete = JsMap.delete;
  get-save = get-set;
  get-delete = get-delete;
}
