-- ===== src/Server/Executor/Replicas.antt =====
-- Commands that a node carries out one after the other, by the executor of server/main.go.
use cabinet_kv_store.Base.{◌≡◌, refl, ap, ◌∙◌, Bool, String, List, [], ◌∷◌}
use mathlib.Core.Path.{fun_ext}
use cabinet_kv_store.Server.Executor.{Collection, Reachable, Json, IsLossless, make_kv_executor}
use cabinet_kv_store.Server.Executor.Laws.{
  Change, Customers, apply_change, succeeded, IsCommand, make_kv_executor_lem,
}

-- A command: op, key and valueJSON.
abbrev pub Command : Type 0
Command = String × String × String

-- What a list of changes makes of the customers, and whether each succeeds.
abbrev pub apply_all : {W : Type 0} → List (Change W) → Customers W → List Bool × Customers W
apply_all [] m = ([], m)
apply_all (ch ∷ chs) m =
    let (done, m') = apply_change ch m in
    let (results, last) = apply_all chs m' in (done ∷ results, last)

module _ {W : Type 0} (col : Collection W) (json : Json W) where
  -- Whether each command has succeeded, and the database after all.
  abbrev pub exec_all : List Command → col.Db → List Bool × col.Db
  exec_all [] db = ([], db)
  exec_all ((op, key, text) ∷ cs) db =
      let (e, db') = make_kv_executor col json op key text db in
      let (results, last) = exec_all cs db' in (succeeded e ∷ results, last)

  abbrev pub AreCommands : List (Change W) → List Command → Type 0
  AreCommands [] [] = Unit
  AreCommands (ch ∷ chs) ((op, key, text) ∷ cs) = IsCommand json ch op key text × AreCommands chs cs
  AreCommands _ _ = ⊥

  module _ (laws : Reachable col) (lossless : IsLossless json) where
    -- A node that carries out commands, as the controllers build them, holds what the changes make
    -- of what it held, and each command succeeds just if its change does.
    pub exec_all_lem :
        (chs : List (Change W)) (cs : List Command) (db : col.Db) (m : Customers W)
        → AreCommands chs cs
        → ((k : String) → laws.lookup db k ≡ m k)
        → ((exec_all cs db).0 ≡ (apply_all chs m).0)
          × ((k : String) → laws.lookup (exec_all cs db).1 k ≡ (apply_all chs m).1 k)
    exec_all_lem [] [] db m h same = (refl, same)
    exec_all_lem (ch ∷ chs) ((op, key, text) ∷ cs) db m h same =
        let a = make_kv_executor_lem col json laws lossless ch op key text db h.0 in
        let spec : apply_change ch (laws.lookup db) ≡ apply_change ch m =
          ap (apply_change ch) (fun_ext same) in
        let (results, last) =
          exec_all_lem chs cs (make_kv_executor col json op key text db).1 (apply_change ch m).1 h.1
            (λ k. a.contents k ∙ ap (λ (s : Bool × Customers W). s.1 k) spec) in
        let first = a.outcome ∙ ap (λ (s : Bool × Customers W). s.0) spec in
        (λ i. first i ∷ results i, last)
    exec_all_lem [] (c ∷ cs) db m h same = absurd h
    exec_all_lem (ch ∷ chs) [] db m h same = absurd h
