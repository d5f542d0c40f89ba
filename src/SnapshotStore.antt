-- ===== src/SnapshotStore.antt =====
-- src/snapshot_store.rs: the file that keeps the charge points' snapshots over a restart. The file
-- system and the JSON codec are interfaces.
pub mod Laws
use ocpp_proxy.Base.{
  String, Bool, true, false, not, Option, none, some, List, [], ◌≡◌, ◌≢◌, Result, ok, err,
  if◌then◌else◌, ◌==◌, is_some,
}
use ocpp_proxy.Mqtt.Snapshot.{ChargePointState}

-- `SnapshotMap`
abbrev pub SnapshotMap : Type 0
SnapshotMap = List (String × ChargePointState)

-- `std::io::ErrorKind`, as far as it matters here
pub data ErrorKind : Type 0 where
  not_found invalid_data : ErrorKind
  io_error : String → ErrorKind

-- `SnapshotStore`
pub record SnapshotStore : Type 0 where
  pub path : Option String

-- `SnapshotStore::new`, `disabled`, `is_enabled`
abbrev pub new : Option String → SnapshotStore
new path = record { path = path }

abbrev pub disabled : SnapshotStore
disabled = record { path = none }

abbrev pub is_enabled : SnapshotStore → Bool
is_enabled store = is_some store.path

-- What the store calls: paths, files and JSON texts. What is relied on is that work on one file leaves
-- the others, that a file which was created and written without an error reads as what was written,
-- and that a rename moves the file or changes nothing.
pub record FileSystem (W : Type 0) : Type 0 where
  pub parent : String → Option String
  pub with_extension : String → String → String
  pub read : String → W → Result ErrorKind String
  pub create_dir_all : String → W → Result ErrorKind (Unit {0}) × W
  pub create : String → W → Result ErrorKind (Unit {0}) × W
  pub write_all : String → String → W → Result ErrorKind (Unit {0}) × W
  pub sync_all : String → W → Result ErrorKind (Unit {0}) × W
  pub rename : String → String → W → Result ErrorKind (Unit {0}) × W
  pub to_vec : SnapshotMap → Result String String
  pub from_slice : String → Result String SnapshotMap
  pub read-create_dir_all : (p d : String) (w : W) → read p (create_dir_all d w).1 ≡ read p w
  pub read-create : (p q : String) (w : W) → q ≢ p → read p (create q w).1 ≡ read p w
  pub read-write_all :
      (p q bytes : String) (w : W) → q ≢ p → read p (write_all q bytes w).1 ≡ read p w
  pub read-sync_all : (p q : String) (w : W) → read p (sync_all q w).1 ≡ read p w
  pub written :
      (p bytes : String) (w : W)
      → (create p w).0 ≡ ok tt
      → (write_all p bytes (create p w).1).0 ≡ ok tt
      → read p (write_all p bytes (create p w).1).1 ≡ ok bytes
  pub rename-ok :
      (p q : String) (w : W) → (rename p q w).0 ≡ ok tt → read q (rename p q w).1 ≡ read p w
  pub rename-err :
      (p q : String) (w : W) (e : ErrorKind)
      → (rename p q w).0 ≡ err e
      → read q (rename p q w).1 ≡ read q w

-- an early return on an error, with the state that the call leaves
abbrev pub and_then :
    {W : Type 0}
    → Result ErrorKind (Unit {0}) × W
    → (W → Result ErrorKind (Unit {0}) × W)
    → Result ErrorKind (Unit {0}) × W
and_then (ok u, w) k = k w
and_then (err e, w) k = (err e, w)

module _ {W : Type 0} (fs : FileSystem W) where
  -- `load`, from the file at `path`
  unfoldable pub load_file : String → W → SnapshotMap
  load_file path w = elim (fs.read path w) [
    | ok raw ↦ (elim (fs.from_slice raw) [ ok map ↦ map | err e ↦ [] ])
    | err e ↦ []
  ]

  -- `load`
  unfoldable pub load : SnapshotStore → W → SnapshotMap
  load store w = elim store.path [ none ↦ [] | some path ↦ load_file path w ]

  -- the directory of the file, unless it is the empty path
  unfoldable pub create_parent : String → W → Result ErrorKind (Unit {0}) × W
  create_parent path w = elim (fs.parent path) [
    | none ↦ (ok tt, w)
    | some dir ↦ (if dir == "" then (ok tt, w) else fs.create_dir_all dir w)
  ]

  -- the temporary file is written and takes the place of the snapshot file
  unfoldable pub replace_file : String → String → String → W → Result ErrorKind (Unit {0}) × W
  replace_file tmp path bytes w = and_then (fs.create tmp w) (λ w1.
      and_then (fs.write_all tmp bytes w1)
        (λ w2. and_then (fs.sync_all tmp w2) (λ w3. fs.rename tmp path w3)))

  -- `save_inner`
  unfoldable pub save_inner : String → SnapshotMap → W → Result ErrorKind (Unit {0}) × W
  save_inner path map w = and_then (create_parent path w) (λ w1. elim (fs.to_vec map) [
    | ok bytes ↦ replace_file (fs.with_extension path "json.tmp") path bytes w1
    | err e ↦ (err invalid_data, w1)
  ])

  -- `save`, which only logs an error
  unfoldable pub save : SnapshotStore → SnapshotMap → W → W
  save store map w = elim store.path [ none ↦ w | some path ↦ (save_inner path map w).1 ]
